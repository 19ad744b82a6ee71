-- ===== src/Request/Parse.antt =====
-- `parse_request` of srcs/ReqRes/RequestParser.cpp. The number that it returns is the length of the
-- input less that of the text which the model returns.
pub mod Hangs
use webserv_team.Run.{Run, returns, no_fuel, ◌>>=◌}
use webserv_team.Base.{ℕ, zero, suc, Bool, true, false, not, ◌||◌, if◌then◌else◌, Bytes, is_empty}
use webserv_team.Request.{
  ParseState, at_request_line, at_headers, at_body, done, error_parse, RequestParser,
}
use webserv_team.Request.RequestLine.{parse_request_line}
use webserv_team.Request.Headers.{parse_headers}
use webserv_team.Request.Body.{parse_body}

abbrev pub is_error : ParseState → Bool
is_error error_parse = true
is_error _ = false

-- `state != DONE && state != ERROR_PARSE`.
abbrev pub is_open : ParseState → Bool
is_open done = false
is_open error_parse = false
is_open _ = true

-- One case of the switch.
unfoldable pub parse_step : ParseState → RequestParser → Bytes → Run (RequestParser × Bytes)
parse_step at_request_line s pos = returns (parse_request_line s pos)
parse_step at_headers s pos = parse_headers s pos
parse_step at_body s pos = parse_body s pos
parse_step _ s pos = returns (record s { state = error_parse }, pos)

-- The loop is not sure to end; `no_fuel` for every fuel is a loop without end.
unfoldable pub request_loop : ℕ → RequestParser → Bytes → Run (RequestParser × Bytes)
request_loop zero s pos = no_fuel
request_loop (suc fuel) s pos =
    let round : Run (RequestParser × Bytes) = (do
      next ← parse_step s.state s pos
      let later = request_loop fuel next.0 next.1
      if is_error next.0.state || is_empty next.1 then returns next else later) in
    if is_empty pos || not (is_open s.state) then returns (s, pos) else round

abbrev pub is_body : ParseState → Bool
is_body at_body = true
is_body _ = false

unfoldable pub parse_request : ℕ → RequestParser → Bytes → Run (RequestParser × Bytes)
parse_request fuel s request =
    if is_body s.state then parse_body s request else request_loop fuel s request
