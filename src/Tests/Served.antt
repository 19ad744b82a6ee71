-- ===== src/Tests/Served.antt =====
-- A run of a client that is sent a request for a page.
use webserv_team.Base.{
  ◌≡◌, refl, true, [], ◌∷◌, Bytes, codes, ◌=ᵇ◌, has_byte, cut, starts_with, find,
}
use webserv_team.Run.{returns}
use webserv_team.Dict.{insert, less, lookup}
use webserv_team.Utils.{split, trim}
use webserv_team.Libc.{is_alnum, to_lower, char_lt}
use webserv_team.Config.{new_server, new_location}
use webserv_team.Request.{RequestParser, new_parser, log_error, at_headers, at_request_line, done}
use webserv_team.Request.Parse.{parse_request, request_loop, parse_step}
use webserv_team.Request.RequestLine.{parse_request_line, set_parts}
use webserv_team.Request.Setters.{
  set_http_method, one_of, set_request_uri, has_invalid, has_control, is_control, before_fragment,
  set_normalized, set_path, set_http_version,
}
use webserv_team.Request.Uri.{
  normalize_path, normalize_uri, normalize_decoded, decode_percent_encoding, decode, resolve,
}
use webserv_team.Request.Lines.{find_line_end}
use webserv_team.Request.Headers.{parse_headers, headers_loop, end_headers}
use webserv_team.Request.Headers.Field.{
  parse_field, split_field, check_names, check_field, check_host, store_field, is_valid_header_name,
  is_valid_header_value, check_content_length, check_transfer_encoding, check_expect,
}
use webserv_team.Request.Routing.{
  is_cgi_request, script_path, is_script, last_cut, match_location, request_host, choose_server,
  find_location,
}
use webserv_team.Response.Multipart.{contains}
use webserv_team.Client.{Client, new_client}
use webserv_team.Client.Reading.{locate, handle_incoming_data}
use webserv_team.Client.Reading.Serves.{
  Serves, IsWhole, behind_recv, located, handle_incoming_data-Serves,
}
use webserv_team.Tests.Machines.{idle_machine}
use webserv_team.Tests.Serving.{sent, connected}

abbrev text : Bytes
text = codes "GET /a HTTP/1.1\r\nHost:x\r\n\r\n"

abbrev lined : RequestParser
lined = record new_parser {
  state = at_headers;
  http_method = codes "GET";
  request_uri = codes "/a";
  http_version = codes "HTTP/1.1";
}

abbrev given : RequestParser
given = record new_parser { http_method = codes "GET" }

abbrev parsed : RequestParser
parsed = record lined { state = done; headers = (codes "host", codes "x") ∷ [] }

uri_set : set_request_uri given (codes "/a") ≡ (record given { request_uri = codes "/a" }, true)
unfolding set_request_uri has_invalid has_byte has_control is_control before_fragment cut
    set_normalized set_path normalize_uri normalize_decoded decode_percent_encoding decode resolve
    split ◌=ᵇ◌
uri_set = refl

parts_set :
    set_parts new_parser (codes "GET" ∷ codes "/a" ∷ codes "HTTP/1.1" ∷ [])
    ≡ (record lined { state = at_request_line }, true)
unfolding set_parts set_http_method one_of ◌=ᵇ◌ set_http_version
parts_set = rw uri_set refl

line_split : split 32 (codes "GET /a HTTP/1.1") ≡ codes "GET" ∷ codes "/a" ∷ codes "HTTP/1.1" ∷ []
unfolding split
line_split = refl

line_end : find_line_end text ≡ 17
unfolding find_line_end
line_end = refl

line_parsed : parse_request_line new_parser text ≡ (lined, codes "Host:x\r\n\r\n")
unfolding parse_request_line
line_parsed = rw line_end (rw line_split (rw parts_set refl))

heads_parsed : parse_headers lined (codes "Host:x\r\n\r\n") ≡ returns (parsed, [])
unfolding parse_headers headers_loop find_line_end end_headers parse_field split_field check_names
    check_field check_host store_field is_valid_header_name is_valid_header_value insert less lookup
    cut trim check_content_length check_transfer_encoding check_expect ◌=ᵇ◌ has_byte is_alnum
    to_lower char_lt
heads_parsed = refl

text_parsed : parse_request 3 new_parser text ≡ returns (parsed, [])
unfolding parse_request request_loop parse_step
text_parsed = rw line_parsed (rw heads_parsed refl)

abbrev client : Client
client = record connected {
  server_configs = record new_server { locations = new_location ∷ [] } ∷ [];
}

text-IsWhole : IsWhole (sent text) 3 parsed [] client idle_machine
unfolding new_client locate match_location request_host choose_server find_location log_error lookup
    contains find one_of ◌=ᵇ◌ cut normalize_path
text-IsWhole = record { some_bytes = refl; ends = refl; parses = text_parsed; whole = refl }

handle_incoming_data-Serves_example :
    Serves
      (sent text)
      (located (sent text) client idle_machine parsed)
      []
      (behind_recv (sent text) client idle_machine)
      (handle_incoming_data (sent text) 3 client idle_machine)
unfolding new_client locate match_location request_host choose_server find_location log_error lookup
    is_cgi_request script_path is_script last_cut one_of ◌=ᵇ◌ cut normalize_path starts_with
handle_incoming_data-Serves_example =
    handle_incoming_data-Serves (sent text) 3 parsed [] client idle_machine refl text-IsWhole refl
