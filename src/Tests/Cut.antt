-- ===== src/Tests/Cut.antt =====
-- A run of the parser that does not end: a chunked request cut behind its first size line.
use webserv_team.Base.{◌≡◌, refl, true, [], ◌∷◌, ◌++◌, arith, Bytes, codes, ◌=ᵇ◌, has_byte, cut}
use webserv_team.Run.{returns, no_fuel}
use webserv_team.Dict.{insert, less, lookup}
use webserv_team.Utils.{split, trim}
use webserv_team.Libc.{is_alnum, to_lower, char_lt}
use webserv_team.Request.{RequestParser, new_parser, at_headers, at_request_line, at_body}
use webserv_team.Request.Parse.{parse_request}
use webserv_team.Request.RequestLine.{parse_request_line, set_parts}
use webserv_team.Request.Setters.{
  set_http_method, one_of, set_request_uri, has_invalid, has_control, is_control, before_fragment,
  set_normalized, set_path, set_http_version,
}
use webserv_team.Request.Uri.{
  normalize_uri, normalize_decoded, decode_percent_encoding, decode, resolve,
}
use webserv_team.Request.Lines.{find_line_end}
use webserv_team.Request.Headers.{parse_headers, headers_loop, end_headers}
use webserv_team.Request.Headers.Field.{
  parse_field, split_field, check_names, check_field, check_host, store_field, is_valid_header_name,
  is_valid_header_value, check_content_length, check_transfer_encoding, check_expect,
  is_transfer_coding,
}
use webserv_team.Request.Parse.Hangs.{AwaitsChunk, parse_request_size_line}
use webserv_team.Request.Body.Chunked.{crlf}

abbrev text : Bytes
text = codes "POST /a HTTP/1.1\r\nHost:x\r\nTransfer-Encoding:chunked\r\n\r\n3\r\n"

abbrev heads : Bytes
heads = codes "Host:x\r\nTransfer-Encoding:chunked\r\n\r\n3\r\n"

abbrev lined : RequestParser
lined = record new_parser {
  state = at_headers;
  http_method = codes "POST";
  request_uri = codes "/a";
  http_version = codes "HTTP/1.1";
}

abbrev given : RequestParser
given = record new_parser { http_method = codes "POST" }

abbrev awaiting : RequestParser
awaiting = record lined {
  state = at_body;
  headers = (codes "host", codes "x") ∷ (codes "transfer-encoding", codes "chunked") ∷ [];
  has_transfer_encoding = true;
}

uri_set : set_request_uri given (codes "/a") ≡ (record given { request_uri = codes "/a" }, true)
unfolding set_request_uri has_invalid has_byte has_control is_control before_fragment cut
    set_normalized set_path normalize_uri normalize_decoded decode_percent_encoding decode resolve
    split ◌=ᵇ◌
uri_set = refl

parts_set :
    set_parts new_parser (codes "POST" ∷ codes "/a" ∷ codes "HTTP/1.1" ∷ [])
    ≡ (record lined { state = at_request_line }, true)
unfolding set_parts set_http_method one_of ◌=ᵇ◌ set_http_version
parts_set = rw uri_set refl

line_split : split 32 (codes "POST /a HTTP/1.1") ≡ codes "POST" ∷ codes "/a" ∷ codes "HTTP/1.1" ∷ []
unfolding split
line_split = refl

line_end : find_line_end text ≡ 18
unfolding find_line_end
line_end = refl

line_parsed : parse_request_line new_parser text ≡ (lined, heads)
unfolding parse_request_line
line_parsed = rw line_end (rw line_split (rw parts_set refl))

heads_parsed : parse_headers lined heads ≡ returns (awaiting, codes "3" ++ crlf [])
unfolding parse_headers headers_loop find_line_end end_headers parse_field split_field check_names
    check_field check_host store_field is_valid_header_name is_valid_header_value insert less lookup
    cut trim check_content_length check_transfer_encoding check_expect is_transfer_coding ◌=ᵇ◌
    has_byte is_alnum to_lower char_lt
heads_parsed = refl

abbrev awaits : AwaitsChunk awaiting
unfolding lookup ◌=ᵇ◌
awaits = record { in_body = refl; coded = refl; chunked = refl; between = refl }

parse_request_size_line_example : parse_request 9 new_parser text ≡ no_fuel
parse_request_size_line_example =
    parse_request_size_line text heads (codes "3") lined awaiting 9 refl line_parsed refl refl
      heads_parsed awaits (omega arith, tt)
