-- ===== src/Client/Sending.antt =====
-- How a client sends its response, and `onEvent`, in srcs/Server/ClientServer.cpp.
pub mod Keeps
pub mod Delivers
use webserv_team.Base.{
  ℕ, zero, suc, ◌+◌, ◌-◌, ◌*◌, ◌/◌, ◌%◌, ◌^◌, ◌≤◌, ◌<◌, min, ◌≡◌, refl, sym, ap, ◌∙◌, ◌≢◌, ◌↔◌, ◌⊎◌,
  inl, inr, Bool, true, false, not, ◌&&◌, ◌||◌, Option, none, some, List, [], ◌∷◌, ◌++◌, map,
  String, arith, ltb, leb, ◌==◌, if◌then◌else◌, ==_iff, Bool-cases, Option-cases, Bytes, codes,
  length, is_empty, take, drop, length-append, length-take, length-drop, take-append-drop,
  take-append, drop-append, take-append_long, drop-append_long, take_all, drop_all, take-min,
  drop-min, All, All-append, ◌=ᵇ◌, =ᵇ_iff, =ᵇ_self, has_byte, cut, cut-append, starts_with, find,
  ends_in, starts_in,
}
use webserv_team.Request.{RequestParser}
use webserv_team.Request.Routing.{is_connection_close}
use webserv_team.Kernel.{Events, Kernel}
use webserv_team.Multiplexer.{Machine}
use webserv_team.Client.{
  Reaction, reacts, crashes, hangs, ◌>>=◌, Client, terminate, update_activity, has_time_out,
}
use webserv_team.Client.Reading.{handle_incoming_data}
use webserv_team.Client.Script.{check_cgi_progress}

unfoldable pub is_response_ready : Client → Bool
is_response_ready c = c.response_ready && not (is_empty c.response_buffer)

-- `sendResponseChunk`; whether the client goes on.
unfoldable pub send_response_chunk :
    {W : Type 0} → Kernel W → Client → Machine W → Bool × (Client × Machine W)
send_response_chunk k c m =
    let (sent, w) = k.send c.peer_socket_fd c.response_buffer m.world in
    let m' = record m { world = w } in
    let rest = if ltb sent (length c.response_buffer) then drop sent c.response_buffer else [] in
    if sent == 0
    then (false, terminate k c m')
    else (true, (record (update_activity k m' c) { response_buffer = rest }, m'))

unfoldable pub should_keep_alive : Client → Bool
should_keep_alive c = elim c.parser [ none ↦ false | some s ↦ not (is_connection_close s) ]

-- A parser with an error is dropped.
unfoldable pub drop_failed_parser : Client → Client
drop_failed_parser c = elim c.parser [
  | none ↦ c
  | some s ↦ if s.error_code == 0 then c else record c { parser = none }
]

unfoldable pub finalize_response : {W : Type 0} → Kernel W → Client → Machine W → Client × Machine W
finalize_response k c m =
    let c' = record c {
      response_ready = false;
      response_builder = none;
      is_shared = elim c.response_builder [ none ↦ c.is_shared | some _ ↦ false ];
    } in
    if not (should_keep_alive c) then terminate k c' m else (drop_failed_parser c', m)

unfoldable pub handle_response : {W : Type 0} → Kernel W → Client → Machine W → Client × Machine W
handle_response k c m =
    let (going, (c', m')) = send_response_chunk k c m in
    if not (is_response_ready c)
    then (c, m)
    else if has_time_out k m c
    then terminate k c m
    else if not going
    then (c', m')
    else if is_empty c'.response_buffer
    then finalize_response k c' m'
    else (c', m')

-- The branch for `EPOLLOUT`.
unfoldable pub on_output :
    {W : Type 0} → Kernel W → Client → Machine W → Reaction (Client × Machine W)
on_output k c m = do
  (c', m') ← (if c.waiting_for_cgi then check_cgi_progress k c m else reacts (c, m))
  reacts (handle_response k c' m')

-- `onEvent`; the fuel is that of `parse_request`.
unfoldable pub on_event :
    {W : Type 0} → Kernel W → ℕ → Events → Client → Machine W → Reaction (Client × Machine W)
on_event k fuel e c m = do
  (c', m') ← (if e.input then handle_incoming_data k fuel c m else reacts (c, m))
  if e.output then on_output k c' m' else reacts (c', m')
