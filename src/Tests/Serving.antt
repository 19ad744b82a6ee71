-- ===== src/Tests/Serving.antt =====
-- A run of a client that is sent a request for a script without a host.
use webserv_team.Base.{◌≡◌, refl, true, [], ◌∷◌, arith, Bytes, codes, ◌=ᵇ◌, has_byte, cut, find}
use webserv_team.Run.{returns}
use webserv_team.Request.{RequestParser, new_parser, log_error, at_headers, at_request_line}
use webserv_team.Request.Parse.{parse_request, request_loop, parse_step}
use webserv_team.Request.RequestLine.{parse_request_line, set_parts}
use webserv_team.Request.Setters.{
  set_http_method, one_of, set_request_uri, has_invalid, has_control, is_control, before_fragment,
  set_normalized, set_path, set_http_version,
}
use webserv_team.Request.Uri.{
  normalize_uri, normalize_decoded, decode_percent_encoding, decode, resolve,
}
use webserv_team.Request.Lines.{find_line_end}
use webserv_team.Utils.{split}
use webserv_team.Request.Headers.{parse_headers, headers_loop, end_headers}
use webserv_team.Config.{new_server}
use webserv_team.Request.Routing.{is_cgi_request, script_path, is_script, last_cut}
use webserv_team.Response.Multipart.{contains}
use webserv_team.Kernel.{Kernel}
use webserv_team.Client.{Client, new_client, crashes}
use webserv_team.Client.Reading.{locate, handle_incoming_data}
use webserv_team.Client.Reading.Serves.{IsWhole, handle_incoming_data_crashes}
use webserv_team.Tests.Machines.{World, toy, idle_machine}

-- A machine on which the peer has sent a text.
abbrev pub sent : Bytes → Kernel World
sent text = record toy { recv = λ fd n w. (text, w) }

abbrev pub connected : Client
connected = record (new_client 0 3 4 (new_server ∷ []) 0) { is_started = true }

-- A request for a script that names no host.
abbrev text : Bytes
text = codes "GET /.py HTTP/1.1\r\n\r\n"

abbrev lined : RequestParser
lined = record new_parser {
  state = at_headers;
  http_method = codes "GET";
  request_uri = codes "/.py";
  http_version = codes "HTTP/1.1";
}

abbrev given : RequestParser
given = record new_parser { http_method = codes "GET" }

uri_set : set_request_uri given (codes "/.py") ≡ (record given { request_uri = codes "/.py" }, true)
unfolding set_request_uri has_invalid has_byte has_control is_control before_fragment cut
    set_normalized set_path normalize_uri normalize_decoded decode_percent_encoding decode resolve
    split ◌=ᵇ◌
uri_set = refl

parts_set :
    set_parts new_parser (codes "GET" ∷ codes "/.py" ∷ codes "HTTP/1.1" ∷ [])
    ≡ (record lined { state = at_request_line }, true)
unfolding set_parts set_http_method one_of ◌=ᵇ◌ set_http_version
parts_set = rw uri_set refl

line_split :
    split 32 (codes "GET /.py HTTP/1.1") ≡ codes "GET" ∷ codes "/.py" ∷ codes "HTTP/1.1" ∷ []
unfolding split
line_split = refl

line_end : find_line_end text ≡ 19
unfolding find_line_end
line_end = refl

line_parsed : parse_request_line new_parser text ≡ (lined, codes "\r\n")
unfolding parse_request_line
line_parsed = rw line_end (rw line_split (rw parts_set refl))

heads_parsed : parse_headers lined (codes "\r\n") ≡ returns (log_error lined 400, codes "\r\n")
unfolding parse_headers headers_loop find_line_end end_headers
heads_parsed = refl

text_parsed : parse_request 2 new_parser text ≡ returns (log_error lined 400, codes "\r\n")
unfolding parse_request request_loop parse_step log_error
text_parsed = rw line_parsed (rw heads_parsed refl)

abbrev hostless : RequestParser
hostless = log_error lined 400

text-IsWhole : IsWhole (sent text) 2 hostless (codes "\r\n") connected idle_machine
unfolding new_client locate log_error contains find
text-IsWhole = record { some_bytes = refl; ends = refl; parses = text_parsed; whole = refl }

handle_incoming_data_crashes_example :
    handle_incoming_data (sent text) 2 connected idle_machine ≡ crashes
unfolding new_client locate log_error is_cgi_request script_path is_script last_cut has_byte ◌=ᵇ◌
handle_incoming_data_crashes_example =
    handle_incoming_data_crashes (sent text) 2 hostless (codes "\r\n") connected idle_machine refl
      refl text-IsWhole refl refl (λ e. ground (arith, e))
