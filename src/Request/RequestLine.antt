-- ===== src/Request/RequestLine.antt =====
-- `parse_request_line` of srcs/ReqRes/RequestParser.cpp. A pointer into the input is the text from
-- there on.
pub mod Accepted
pub mod Parts
use webserv_team.Base.{
  ℕ, ◌-◌, Bool, false, List, [], ◌∷◌, ltb, ◌==◌, if◌then◌else◌, Bytes, length, take, drop,
}
use webserv_team.Utils.{split}
use webserv_team.Request.{RequestParser, at_headers, log_error}
use webserv_team.Request.Lines.{find_line_end}
use webserv_team.Request.Setters.{set_http_method, set_request_uri, set_http_version}

abbrev pub max_request_line_length : ℕ
max_request_line_length = 8192

-- A setter runs only if the one before it accepted its part.
abbrev pub and_then :
    RequestParser × Bool → (RequestParser → RequestParser × Bool) → RequestParser × Bool
and_then (s, accepted) next = if accepted then next s else (s, false)

-- The three setters on the parts of the line.
unfoldable pub set_parts : RequestParser → List Bytes → RequestParser × Bool
set_parts s (method ∷ uri ∷ version ∷ []) =
    and_then (and_then (set_http_method s method) (λ t. set_request_uri t uri))
      (λ t. set_http_version t version)
set_parts s parts = (log_error s 400, false)

-- Where the parser goes on.
abbrev pub after_parts : RequestParser × Bool → Bytes → Bytes → RequestParser × Bytes
after_parts (s, accepted) pos line_end =
    if accepted then (record s { state = at_headers }, line_end) else (s, pos)

unfoldable pub parse_request_line : RequestParser → Bytes → RequestParser × Bytes
parse_request_line s pos =
    let n = find_line_end pos in
    if n == length pos
    then (s, pos)
    else if ltb max_request_line_length n
    then (log_error s 414, pos)
    else after_parts (set_parts s (split b' ' (take (n - 2) pos))) pos (drop n pos)
