-- ===== src/Tests/Scripts.antt =====
-- Runs of what is made of the output of a script.
use webserv_team.Base.{◌≡◌, refl, none, [], ◌++◌, codes, has_byte}
use webserv_team.Request.{new_parser}
use webserv_team.Response.{ResponseBuilder}
use webserv_team.Cgi.{process_cgi_output}
use webserv_team.Cgi.Output.{
  IsStatus, process_cgi_output-IsStatus, HeaderLines, one_line, next_line, with_headers,
  process_cgi_output_body,
}
use webserv_team.Response.Multipart.{double_crlf}

abbrev empty_response : ResponseBuilder
empty_response = record {
  request = new_parser;
  http_version = codes "HTTP/1.1";
  status = [];
  headers = [];
  body = [];
  status_code = 0;
  routes = [];
  server_config = none;
  location_config = none;
}

process_cgi_output-IsStatus_example :
    IsStatus (process_cgi_output (codes "Status: 999\r\n\r\nx") empty_response).status_code
process_cgi_output-IsStatus_example =
    process_cgi_output-IsStatus (codes "Status: 999\r\n\r\nx") empty_response

abbrev two_lines : HeaderLines (codes "Status: 201\r\nX-A: b")
unfolding has_byte
two_lines = next_line (codes "Status: 201") refl refl (one_line (codes "X-A: b") refl refl)

process_cgi_output_body_example :
    (process_cgi_output
      (codes "Status: 201\r\nX-A: b" ++ (double_crlf ++ codes "made\r\n\r\n"))
      empty_response).body
    ≡ codes "made\r\n\r\n"
process_cgi_output_body_example =
    process_cgi_output_body (codes "Status: 201\r\nX-A: b" ++ (double_crlf ++ codes "made\r\n\r\n"))
      (codes "made\r\n\r\n") empty_response
      (with_headers (codes "Status: 201\r\nX-A: b") (codes "made\r\n\r\n") two_lines)
