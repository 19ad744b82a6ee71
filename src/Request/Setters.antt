-- ===== src/Request/Setters.antt =====
-- The setters of srcs/ReqRes/RequestParser.cpp. A setter returns whether it accepted its argument.
pub mod Target
pub mod Parent
use webserv_team.Base.{
  ℕ, Bool, true, false, not, ◌||◌, none, some, List, [], ◌∷◌, ◌++◌, ltb, ◌==◌, if◌then◌else◌, Bytes,
  codes, length, ◌=ᵇ◌, has_byte, cut, starts_in,
}
use webserv_team.Libc.{char_lt}
use webserv_team.Request.{RequestParser, log_error}
use webserv_team.Request.Uri.{normalize_uri}

unfoldable pub one_of : Bytes → List Bytes → Bool
one_of s [] = false
one_of s (t ∷ ts) = s =ᵇ t || one_of s ts

abbrev pub methods : List Bytes
methods = codes "GET" ∷ codes "POST" ∷ codes "DELETE" ∷ []

abbrev pub unimplemented_methods : List Bytes
unimplemented_methods =
    codes "HEAD"
    ∷ codes "OPTIONS"
    ∷ codes "TRACE"
    ∷ codes "PUT"
    ∷ codes "PATCH"
    ∷ codes "CONNECT"
    ∷ []

unfoldable pub set_http_method : RequestParser → Bytes → RequestParser × Bool
set_http_method s method =
    if one_of method methods
    then (record s { http_method = method }, true)
    else if one_of method unimplemented_methods
    then (log_error s 501, false)
    else (log_error s 400, false)

-- `find_first_of(" \t\r\n<>\"{}|\\^`") != npos`.
abbrev pub invalid_bytes : Bytes
invalid_bytes = b' ' ∷ 9 ∷ 13 ∷ 10 ∷ b'<' ∷ b'>' ∷ 34 ∷ b'{' ∷ b'}' ∷ b'|' ∷ 92 ∷ b'^' ∷ 96 ∷ []

unfoldable pub has_invalid : Bytes → Bool
has_invalid [] = false
has_invalid (c ∷ s) = has_byte c invalid_bytes || has_invalid s

unfoldable pub is_control : ℕ → Bool
unfolding char_lt
is_control c = char_lt c 32 || c == 127

-- The loop over `request_uri[i] <= 31 || request_uri[i] == 127`.
unfoldable pub has_control : Bytes → Bool
has_control [] = false
has_control (c ∷ s) = is_control c || has_control s

unfoldable pub before_fragment : Bytes → Bytes
before_fragment uri = elim (cut b'#' uri) [ none ↦ uri | some (path, fragment) ↦ path ]

abbrev pub set_query_string : RequestParser → Bytes → RequestParser
set_query_string s query = record s { query_string = query }

abbrev pub max_uri_length : ℕ
max_uri_length = 2048

-- The checks behind the query string.
unfoldable pub set_path : RequestParser → Bytes → RequestParser × Bool
set_path s path =
    if not (starts_in b'/' path)
    then (log_error s 400, false)
    else if ltb max_uri_length (length path)
    then (log_error s 414, false)
    else (record s { request_uri = path }, true)

-- What follows the normalisation. An empty text is refused with no error of its own.
unfoldable pub set_normalized : RequestParser → Bytes → RequestParser × Bool
set_normalized s [] = (s, false)
set_normalized s (c ∷ uri) = elim (cut b'?' (c ∷ uri)) [
  | none ↦ set_path s (c ∷ uri)
  | some (path, query) ↦ set_path (set_query_string s query) path
]

unfoldable pub set_request_uri : RequestParser → Bytes → RequestParser × Bool
set_request_uri s request_uri =
    let normalized = normalize_uri s (before_fragment request_uri) in
    if has_invalid request_uri
    then (log_error s 400, false)
    else if has_control request_uri
    then (log_error s 400, false)
    else set_normalized normalized.0 normalized.1

abbrev pub supported_version : Bytes
supported_version = codes "HTTP/1.1"

unfoldable pub set_http_version : RequestParser → Bytes → RequestParser × Bool
set_http_version s version =
    if version =ᵇ supported_version
    then (record s { http_version = version }, true)
    else if version =ᵇ codes "HTTP/0.9" || version =ᵇ codes "HTTP/1.0"
    then (log_error s 505, false)
    else (log_error s 400, false)

abbrev pub set_port : RequestParser → ℕ → RequestParser
set_port s port = record s { port = port }

-- `set_request_line`.
abbrev pub set_request_line : RequestParser → RequestParser
set_request_line s = record s {
  request_line = s.http_method ++ b' ' ∷ (s.request_uri ++ b' ' ∷ s.http_version);
}
