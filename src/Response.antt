-- ===== src/Response.antt =====
-- The state of includes/ResponseBuilder.hpp, the status lines of includes/webserv.hpp, and what the
-- builder asks of the operating system. The children hold the operations of
-- srcs/ReqRes/ResponseBuilder.cpp. What is logged is left out.
pub mod Clock
pub mod Session
pub mod Pages
pub mod Methods
pub mod Multipart
pub mod Build
use webserv_team.Base.{
  ℕ, zero, suc, ◌+◌, ◌-◌, ◌*◌, ◌/◌, ◌%◌, ◌^◌, ◌≤◌, ◌<◌, min, ◌≡◌, refl, sym, ap, ◌∙◌, ◌≢◌, ◌↔◌, ◌⊎◌,
  inl, inr, Bool, true, false, not, ◌&&◌, ◌||◌, Option, none, some, List, [], ◌∷◌, ◌++◌, map,
  String, arith, ltb, leb, ◌==◌, if◌then◌else◌, ==_iff, Bool-cases, Option-cases, Bytes, codes,
  length, is_empty, take, drop, length-append, length-take, length-drop, take-append-drop,
  take-append, drop-append, take-append_long, drop-append_long, take_all, drop_all, take-min,
  drop-min, All, All-append, ◌=ᵇ◌, =ᵇ_iff, =ᵇ_self, has_byte, cut, cut-append, starts_with, find,
  ends_in, starts_in,
}
use webserv_team.Dict.{Dict, insert}
use webserv_team.Config.{ServerConfig, Location}
use webserv_team.Request.{RequestParser}

-- What `stat` tells of a path.
pub record FileStat : Type 0 where
  pub is_directory : Bool
  pub is_readable : Bool

-- The calls of the operating system, over the states of the machine. A directory that cannot be
-- opened has no listing, a file that cannot be opened no content; the calls that change the machine
-- tell whether they succeed.
pub record Os (W : Type 0) : Type 0 where
  pub stat : Bytes → W → Option FileStat
  pub list_directory : Bytes → W → Option (List Bytes)
  pub content_of : Bytes → W → Option Bytes
  pub is_writable : Bytes → W → Bool
  pub remove_directory : Bytes → W → Bool × W
  pub remove_file : Bytes → W → Bool × W
  pub write_file : Bytes → Bytes → W → Bool × W
  pub http_date : W → Bytes
  pub timestamp : W → Bytes
  pub session_id : W → Bytes

-- A handler of a method.
pub data Handler : Type 0 where
  do_get do_post do_delete : Handler

pub record ResponseBuilder : Type 0 where
  pub request : RequestParser
  pub http_version : Bytes
  pub status : Bytes
  pub headers : Dict
  pub body : Bytes
  pub status_code : ℕ
  pub routes : List (Bytes × Handler)
  pub server_config : Option ServerConfig
  pub location_config : Option Location

unfoldable pub set_headers : Bytes → Bytes → ResponseBuilder → ResponseBuilder
set_headers key value r = record r { headers = insert key value r.headers }

unfoldable pub set_body : Bytes → ResponseBuilder → ResponseBuilder
set_body text r = record r { body = text }

unfoldable pub status_lines : List (ℕ × Bytes)
status_lines =
    (100, codes "100 Continue")
    ∷ (101, codes "101 Switching Protocols")
    ∷ (102, codes "102 Processing")
    ∷ (200, codes "200 OK")
    ∷ (201, codes "201 Created")
    ∷ (202, codes "202 Accepted")
    ∷ (203, codes "203 Non-authoritative Information")
    ∷ (204, codes "204 No Content")
    ∷ (205, codes "205 Reset Content")
    ∷ (206, codes "206 Partial Content")
    ∷ (207, codes "207 Multi-Status")
    ∷ (208, codes "208 Already Reported")
    ∷ (226, codes "226 IM Used")
    ∷ (300, codes "300 Multiple Choices")
    ∷ (301, codes "301 Moved Permanently")
    ∷ (302, codes "302 Found")
    ∷ (303, codes "303 See Other")
    ∷ (304, codes "304 Not Modified")
    ∷ (305, codes "305 Use Proxy")
    ∷ (307, codes "307 Temporary Redirect")
    ∷ (308, codes "308 Permanent Redirect")
    ∷ (400, codes "400 Bad Request")
    ∷ (401, codes "401 Unauthorized")
    ∷ (402, codes "402 Payment Required")
    ∷ (403, codes "403 Forbidden")
    ∷ (404, codes "404 Not Found")
    ∷ (405, codes "405 Method Not Allowed")
    ∷ (406, codes "406 Not Acceptable")
    ∷ (407, codes "407 Proxy Authentication Required")
    ∷ (408, codes "408 Request Timeout")
    ∷ (409, codes "409 Conflict")
    ∷ (410, codes "410 Gone")
    ∷ (411, codes "411 Length Required")
    ∷ (412, codes "412 Precondition Failed")
    ∷ (413, codes "413 Payload Too Large")
    ∷ (414, codes "414 Request-URI Too Long")
    ∷ (415, codes "415 Unsupported Media Type")
    ∷ (416, codes "416 Requested Range Not Satisfiable")
    ∷ (417, codes "417 Expectation Failed")
    ∷ (418, codes "418 I'm a teapot")
    ∷ (421, codes "421 Misdirected Request")
    ∷ (422, codes "422 Unprocessable Entity")
    ∷ (423, codes "423 Locked")
    ∷ (424, codes "424 Failed Dependency")
    ∷ (426, codes "426 Upgrade Required")
    ∷ (429, codes "429 Too Many Requests")
    ∷ (431, codes "431 Request Header Fields Too Large")
    ∷ (444, codes "444 Connection Closed Without Response")
    ∷ (451, codes "451 Unavailable For Legal Reasons")
    ∷ (499, codes "499 Client Closed Request")
    ∷ (500, codes "500 Internal Server Error")
    ∷ (501, codes "501 Not Implemented")
    ∷ (502, codes "502 Bad Gateway")
    ∷ (503, codes "503 Service Unavailable")
    ∷ (504, codes "504 Gateway Timeout")
    ∷ (505, codes "505 HTTP Version Not Supported")
    ∷ (506, codes "506 Variant Also Negotiates")
    ∷ (507, codes "507 Insufficient Storage")
    ∷ (508, codes "508 Loop Detected")
    ∷ (510, codes "510 Not Extended")
    ∷ (511, codes "511 Network Authentication Required")
    ∷ (599, codes "599 Network Connect Timeout Error")
    ∷ []

unfoldable pub status_line : ℕ → List (ℕ × Bytes) → Bytes
status_line code [] = codes "UNDEFINED HTTP STATUS CODE"
status_line code ((k, text) ∷ lines) = if code == k then text else status_line code lines

unfoldable pub set_status : ℕ → ResponseBuilder → ResponseBuilder
set_status code r = record r {
  status_code = code;
  status = status_line code status_lines;
  headers =
      if code == 200 then insert (codes "Accept-Ranges") (codes "bytes") r.headers else r.headers;
}

-- The digits of a number, with itself as fuel.
unfoldable pub digits : ℕ → ℕ → Bytes → Bytes
digits zero n acc = acc
digits (suc fuel) n acc =
    let more = digits fuel (n / 10) ((48 + n % 10) ∷ acc) in
    if ltb n 10 then (48 + n) ∷ acc else more

-- `Utils::to_string`.
unfoldable pub to_string : ℕ → Bytes
unfolding digits
to_string n = digits (suc n) n []
