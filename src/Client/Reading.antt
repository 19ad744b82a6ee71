-- ===== src/Client/Reading.antt =====
-- What a client does with the bytes that arrive, in srcs/Server/ClientServer.cpp.
pub mod Keeps
pub mod Serves
use webserv_team.Base.{
  ℕ, zero, suc, ◌+◌, ◌-◌, ◌*◌, ◌/◌, ◌%◌, ◌^◌, ◌≤◌, ◌<◌, min, ◌≡◌, refl, sym, ap, ◌∙◌, ◌≢◌, ◌↔◌, ◌⊎◌,
  inl, inr, Bool, true, false, not, ◌&&◌, ◌||◌, Option, none, some, List, [], ◌∷◌, ◌++◌, map,
  String, arith, ltb, leb, ◌==◌, if◌then◌else◌, ==_iff, Bool-cases, Option-cases, Bytes, codes,
  length, is_empty, take, drop, length-append, length-take, length-drop, take-append-drop,
  take-append, drop-append, take-append_long, drop-append_long, take_all, drop_all, take-min,
  drop-min, All, All-append, ◌=ᵇ◌, =ᵇ_iff, =ᵇ_self, has_byte, cut, cut-append, starts_with, find,
  ends_in, starts_in,
}
use webserv_team.Run.{Run, returns, length_error, no_fuel}
use webserv_team.Dict.{lookup, has_key}
use webserv_team.Config.{ServerConfig}
use webserv_team.Request.{ParseState, at_body, done, error_parse, RequestParser, new_parser}
use webserv_team.Request.Setters.{set_port}
use webserv_team.Request.Parse.{is_body, is_open, parse_request}
use webserv_team.Request.Body.{parse_body}
use webserv_team.Request.Routing.{match_location}
use webserv_team.Response.{Os, ResponseBuilder}
use webserv_team.Response.Multipart.{double_crlf, contains}
use webserv_team.Response.Pages.{fail_with, include_required_headers}
use webserv_team.Response.Build.{new_response, generate_response_string}
use webserv_team.Kernel.{Events, Kernel}
use webserv_team.Multiplexer.{Machine}
use webserv_team.Client.{
  Reaction, reacts, crashes, hangs, ◌>>=◌, Client, terminate, update_activity,
}
use webserv_team.Client.Process.{process_completed_request}

abbrev pub rd_size : ℕ
rd_size = 1024

-- `sendErrorResponse`: the page is sent at once, as much of it as the socket takes.
unfoldable pub send_error_response :
    {W : Type 0} → Kernel W → ℕ → RequestParser → Client → Machine W → Client × Machine W
send_error_response k code s c m =
    let r = fail_with k.os m.world code (new_response k.os m.world s) in
    let response = generate_response_string (include_required_headers k.os m.world r) in
    terminate k c (record m { world = (k.send c.peer_socket_fd response m.world).1 })

-- The call of `recv` in `readIncomingData`; whether there is something to handle.
unfoldable pub receive : {W : Type 0} → Kernel W → Client → Machine W → Bool × (Client × Machine W)
receive k c m =
    let (bytes, w) = k.recv c.peer_socket_fd rd_size m.world in
    let m' = record m { world = w } in
    if is_empty bytes then (false, terminate k c m') else (
      true,
      (record (update_activity k m' c) { request_buffer = c.request_buffer ++ bytes }, m'),
    )

-- `readIncomingData`. A parser that has the length of its body but no server is read through a null
-- pointer.
unfoldable pub read_incoming_data :
    {W : Type 0} → Kernel W → Client → Machine W → Reaction (Bool × (Client × Machine W))
read_incoming_data k c m = elim c.parser [
  | none ↦ reacts (receive k c m)
  | some s ↦ if not s.has_content_length then reacts (receive k c m) else elim s.server_config [
    | none ↦ crashes
    | some server ↦
        if ltb server.client_max_body_size s.content_length_value
        then reacts (false, send_error_response k 413 s c m)
        else reacts (receive k c m)
  ]
]

abbrev pub continue_response : Bytes
continue_response = codes "HTTP/1.1 100 Continue" ++ double_crlf

unfoldable pub handle_expect_continue :
    {W : Type 0} → Kernel W → Client → Machine W → Client × Machine W
handle_expect_continue k c m = elim c.parser [
  | none ↦ (c, m)
  | some s ↦
      if has_key (codes "expect") s.headers && not c.continue_sent
      then (
        record c { continue_sent = true },
        record m { world = (k.send c.peer_socket_fd continue_response m.world).1 },
      )
      else (c, m)
]

-- A parser in the state `BODY` reads on; it never throws.
unfoldable pub read_body :
    {W : Type 0} → Kernel W → RequestParser → Client → Machine W → Reaction (Client × Machine W)
read_body k s c m = elim (parse_body s c.request_buffer) [
  | returns (s', rest) ↦
      let c' = record c { parser = some s'; request_buffer = rest } in
      if is_open s'.state then reacts (c', m) else process_completed_request k s' c' m
  | length_error ↦ reacts (c, m)
  | no_fuel ↦ hangs
]

-- The port and the location of a request without an error. Every socket has a server; `local_port` is
-- the port of the socket as `htons` leaves it.
unfoldable pub locate : {W : Type 0} → Kernel W → Client → Machine W → RequestParser → RequestParser
locate k c m s =
    let s' = set_port s (k.local_port c.peer_socket_fd m.world) in
    if not (s.error_code == 0)
    then s
    else elim c.server_configs [ [] ↦ s' | first ∷ others ↦ match_location s' first others ]

-- `parseHeaders`, with the parser that it leaves in the client.
unfoldable pub read_headers :
    {W : Type 0} → Kernel W → ℕ → Client → Machine W → Run (RequestParser × Bytes)
read_headers k fuel c m = elim (parse_request fuel new_parser c.request_buffer) [
  | no_fuel ↦ no_fuel
  | length_error ↦ length_error
  | returns (s, rest) ↦ returns (locate k c m s, rest)
]

-- `processRequestHeaders`; an exception of the parser is caught and drops the client's parser.
unfoldable pub process_request_headers :
    {W : Type 0} → Kernel W → ℕ → Client → Machine W → Reaction (Client × Machine W)
process_request_headers k fuel c m =
    if not (contains double_crlf c.request_buffer)
    then reacts (c, m)
    else elim (read_headers k fuel c m) [
      | no_fuel ↦ hangs
      | length_error ↦ reacts (record c { parser = none }, m)
      | returns (s, rest) ↦
          let c' = record c { parser = some s; request_buffer = rest } in
          if is_body s.state then reacts (c', m) else process_completed_request k s c' m
    ]

-- `isParsingRequestBody` and, if it is not, `processRequestHeaders`.
unfoldable pub process_data :
    {W : Type 0} → Kernel W → ℕ → Client → Machine W → Reaction (Client × Machine W)
process_data k fuel c m = elim c.parser [
  | none ↦ process_request_headers k fuel c m
  | some s ↦
      if is_body s.state && not c.waiting_for_cgi
      then read_body k s c m
      else process_request_headers k fuel c m
]

unfoldable pub handle_incoming_data :
    {W : Type 0} → Kernel W → ℕ → Client → Machine W → Reaction (Client × Machine W)
handle_incoming_data k fuel c m = do
  (more, (c', m')) ← read_incoming_data k c m
  let (c'', m'') = handle_expect_continue k c' m'
  if more then process_data k fuel c'' m'' else reacts (c', m')
