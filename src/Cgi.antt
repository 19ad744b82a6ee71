-- ===== src/Cgi.antt =====
-- srcs/CGI/CGIHandler.cpp: the environment of a script and what is made of its output; Process holds the
-- constructor, `startCGI` and `terminate`.
pub mod Output
pub mod Process
use webserv_team.Base.{
  ℕ, zero, suc, ◌+◌, ◌-◌, ◌*◌, ◌/◌, ◌%◌, ◌^◌, ◌≤◌, ◌<◌, min, ◌≡◌, refl, sym, ap, ◌∙◌, ◌≢◌, ◌↔◌, ◌⊎◌,
  inl, inr, Bool, true, false, not, ◌&&◌, ◌||◌, Option, none, some, List, [], ◌∷◌, ◌++◌, map,
  String, arith, ltb, leb, ◌==◌, if◌then◌else◌, ==_iff, Bool-cases, Option-cases, Bytes, codes,
  length, is_empty, take, drop, length-append, length-take, length-drop, take-append-drop,
  take-append, drop-append, take-append_long, drop-append_long, take_all, drop_all, take-min,
  drop-min, All, All-append, ◌=ᵇ◌, =ᵇ_iff, =ᵇ_self, has_byte, cut, cut-append, starts_with, find,
  ends_in, starts_in,
}
use webserv_team.Dict.{Dict, lookup}
use webserv_team.Utils.{split, trim}
use webserv_team.Libc.{is_digit}
use webserv_team.Config.Parser.{atoi}
use webserv_team.Response.{ResponseBuilder, set_headers, set_body, set_status, to_string}
use webserv_team.Response.Pages.{webserv_name}
use webserv_team.Response.Multipart.{split_at, contains, double_crlf}

-- What a handler keeps of its request.
pub record CgiHandler : Type 0 where
  pub method : Bytes
  pub query_string : Bytes
  pub content_type : Bytes
  pub script_path : Bytes
  pub uri : Bytes
  pub root_path : Bytes
  pub headers : Dict
  pub request_body : Bytes

-- An entry for a header, if it is there.
unfoldable pub header_entry : Bytes → Bytes → Dict → List Bytes
header_entry name key headers = elim (lookup key headers) [ none ↦ [] | some v ↦ (name ++ v) ∷ [] ]

unfoldable pub setup_environment : CgiHandler → List Bytes
setup_environment h =
    let fixed : List Bytes =
      (codes "REQUEST_METHOD=" ++ h.method)
      ∷ (codes "QUERY_STRING=" ++ h.query_string)
      ∷ (codes "CONTENT_LENGTH=" ++ to_string (length h.request_body))
      ∷ (codes "CONTENT_TYPE=" ++ h.content_type)
      ∷ (codes "SCRIPT_FILENAME=" ++ h.script_path)
      ∷ (codes "SCRIPT_NAME=" ++ h.uri)
      ∷ (codes "DOCUMENT_ROOT=" ++ h.root_path)
      ∷ (codes "PHP_SELF=" ++ h.uri)
      ∷ (codes "PATH_TRANSLATED=" ++ h.script_path)
      ∷ (codes "REQUEST_URI=" ++ h.uri)
      ∷ codes "SERVER_PROTOCOL=HTTP/1.1"
      ∷ codes "GATEWAY_INTERFACE=CGI/1.1"
      ∷ (codes "SERVER_SOFTWARE=" ++ webserv_name)
      ∷ codes "REDIRECT_STATUS=200"
      ∷ codes "PYTHONIOENCODING=UTF-8"
      ∷ [] in
    let upload : List Bytes =
      if contains (codes "multipart/form-data") h.content_type
      then codes "UPLOAD_TMPDIR=/tmp" ∷ []
      else [] in
    fixed
    ++ upload
    ++ header_entry (codes "HTTP_HOST=") (codes "host") h.headers
    ++ header_entry (codes "HTTP_USER_AGENT=") (codes "user-agent") h.headers
    ++ header_entry (codes "HTTP_COOKIE=") (codes "cookie") h.headers

-- What the loop over the lines keeps.
pub record CgiOutput : Type 0 where
  pub response : ResponseBuilder
  pub content_type : Bytes
  pub status_set : Bool

unfoldable pub strip_cr : Bytes → Bytes
strip_cr [] = []
strip_cr (c ∷ []) = if c == 13 then [] else c ∷ []
strip_cr (c ∷ (d ∷ s)) = c ∷ strip_cr (d ∷ s)

-- From the first digit on.
unfoldable pub from_digit : Bytes → Bytes
from_digit [] = []
from_digit (c ∷ s) = let rest = from_digit s in if is_digit c then c ∷ s else rest

unfoldable pub read_status : Bytes → CgiOutput → CgiOutput
read_status line o =
    let code = atoi (take 3 (from_digit line)) in
    if is_empty (from_digit line)
    then o
    else if leb 100 code && ltb code 600
    then record o { response = set_status code o.response; status_set = true }
    else o

unfoldable pub read_header : Bytes → Bytes → Bytes → CgiOutput → CgiOutput
read_header line name value o =
    if name =ᵇ codes "Content-Type"
    then record o { content_type = value }
    else if name =ᵇ codes "Status"
    then read_status line o
    else record o { response = set_headers name value o.response }

unfoldable pub read_line : Bytes → CgiOutput → CgiOutput
read_line text o =
    let line = strip_cr text in
    elim (cut b':' line) [
      | none ↦ o
      | some (name, rest) ↦ read_header line name (trim rest (codes " \t")) o
    ]

unfoldable pub read_lines : List Bytes → CgiOutput → CgiOutput
read_lines [] o = o
read_lines (l ∷ ls) o = read_lines ls (read_line l o)

-- The headers and the body of the output.
unfoldable pub split_output : Bytes → Bytes × Bytes
split_output output = elim (split_at double_crlf output) [
  | none ↦ ([], output)
  | some parts ↦ parts
]

-- The last calls: a default status, the type and the body.
unfoldable pub finish : Bytes → CgiOutput → ResponseBuilder
finish body o =
    let r = if o.status_set then o.response else set_status 200 o.response in
    set_body body (set_headers (codes "Content-Type") o.content_type r)

unfoldable pub process_cgi_output : Bytes → ResponseBuilder → ResponseBuilder
process_cgi_output output r =
    let (headers, body) = split_output output in
    finish body (
      read_lines (split 10 headers) (record {
        response = set_status 200 r;
        content_type = codes "text/html";
        status_set = false;
      }))
