-- ===== src/Tests/Targets.antt =====
-- Runs of the parsers of the request line and of the headers.
use webserv_team.Base.{
  ◌≡◌, refl, true, none, [], ◌∷◌, ◌++◌, Bytes, codes, All, ◌=ᵇ◌, has_byte, cut, starts_with,
}
use webserv_team.Utils.{split}
use webserv_team.Config.{Location, new_location}
use webserv_team.Request.{RequestParser, new_parser, at_headers, done}
use webserv_team.Request.Uri.{
  decode, decode_percent_encoding, resolve, normalize_decoded, normalize_uri,
}
use webserv_team.Request.Uri.Segments.{NotDots, normalize_uri-NotDots}
use webserv_team.Request.Uri.Idempotent.{normalize_decoded_idempotent}
use webserv_team.Request.Setters.{
  has_invalid, is_control, has_control, before_fragment, set_path, set_normalized, set_request_uri,
}
use webserv_team.Request.Setters.Target.{IsTarget, set_request_uri-IsTarget}
use webserv_team.Request.Setters.Parent.{set_request_uri_parent}
use webserv_team.Request.RequestLine.{parse_request_line}
use webserv_team.Request.RequestLine.Accepted.{Consumes, parse_request_line-Consumes}
use webserv_team.Request.Headers.{parse_headers}
use webserv_team.Request.Headers.Returns.{Returns, has_blank_line, parse_headers-Returns}
use webserv_team.Request.Routing.{find_location}
use webserv_team.Request.Routing.Longest.{IsLongest, find_location-IsLongest}

parse_request_line-Consumes_example :
    Consumes
      (codes "GET / HTTP/1.1\r\nHost: a\r\n\r\n")
      (parse_request_line new_parser (codes "GET / HTTP/1.1\r\nHost: a\r\n\r\n"))
parse_request_line-Consumes_example =
    parse_request_line-Consumes new_parser (codes "GET / HTTP/1.1\r\nHost: a\r\n\r\n")

normalize_uri-NotDots_example :
    All NotDots (split b'/' (normalize_uri new_parser (codes "/a/../%2e/b")).1)
normalize_uri-NotDots_example = normalize_uri-NotDots new_parser (codes "/a/../%2e/b")

normalize_decoded_idempotent_example :
    normalize_decoded new_parser (normalize_decoded new_parser (codes "/a/../b//c/")).1
    ≡ (new_parser, (normalize_decoded new_parser (codes "/a/../b//c/")).1)
normalize_decoded_idempotent_example =
    normalize_decoded_idempotent new_parser new_parser (codes "/a/../b//c/")

set_request_uri-IsTarget_example :
    IsTarget (set_request_uri new_parser (codes "/a/../b?x=1")).0.request_uri
unfolding set_request_uri has_invalid has_control is_control before_fragment cut normalize_uri
    decode_percent_encoding decode normalize_decoded set_normalized has_byte set_path resolve split
    ◌=ᵇ◌
set_request_uri-IsTarget_example = set_request_uri-IsTarget new_parser (codes "/a/../b?x=1") refl

set_request_uri_parent_example :
    set_request_uri new_parser (codes "/..?" ++ codes "id")
    ≡ (record new_parser { query_string = codes "id"; request_uri = codes "/.." }, true)
unfolding has_byte is_control
set_request_uri_parent_example =
    set_request_uri_parent new_parser (codes "id") ((refl, refl), ((refl, refl), tt))

abbrev header_text : Bytes
header_text = codes "Host: a\r\nX-Id: 7\r\n\r\nrest"

abbrev at_header_text : RequestParser
at_header_text = record new_parser { state = at_headers; http_method = codes "GET" }

parse_headers-Returns_example : Returns (parse_headers at_header_text header_text)
unfolding has_blank_line starts_with
parse_headers-Returns_example = parse_headers-Returns at_header_text header_text refl

abbrev after_header_text : RequestParser
after_header_text = record at_header_text {
  state = done;
  headers = (codes "host", codes "a") ∷ (codes "x-id", codes "7") ∷ [];
}

abbrev images : Location
images = record new_location { location = codes "/images/" }

find_location-IsLongest_example :
    IsLongest
      (codes "/images/a.png")
      (new_location ∷ images ∷ [])
      (find_location (codes "/images/a.png") none 0 (new_location ∷ images ∷ []))
find_location-IsLongest_example =
    find_location-IsLongest (codes "/images/a.png") (new_location ∷ images ∷ [])
