-- ===== src/Client/Script.antt =====
-- The events of a script's pipe, in srcs/CGI/CGIHandler.cpp, and what the client makes of a script that
-- is done or late, in srcs/Server/ClientServer.cpp.
pub mod Keeps
pub mod Collects
use webserv_team.Base.{
  ℕ, zero, suc, ◌+◌, ◌-◌, ◌*◌, ◌/◌, ◌%◌, ◌^◌, ◌≤◌, ◌<◌, min, ◌≡◌, refl, sym, ap, ◌∙◌, ◌≢◌, ◌↔◌, ◌⊎◌,
  inl, inr, Bool, true, false, not, ◌&&◌, ◌||◌, Option, none, some, List, [], ◌∷◌, ◌++◌, map,
  String, arith, ltb, leb, ◌==◌, if◌then◌else◌, ==_iff, Bool-cases, Option-cases, Bytes, codes,
  length, is_empty, take, drop, length-append, length-take, length-drop, take-append-drop,
  take-append, drop-append, take-append_long, drop-append_long, take_all, drop_all, take-min,
  drop-min, All, All-append, ◌=ᵇ◌, =ᵇ_iff, =ᵇ_self, has_byte, cut, cut-append, starts_with, find,
  ends_in, starts_in,
}
use webserv_team.Response.{ResponseBuilder}
use webserv_team.Response.Pages.{fail_with, include_required_headers}
use webserv_team.Response.Build.{new_response, generate_response_string}
use webserv_team.Kernel.{Events, Kernel}
use webserv_team.Multiplexer.{Machine}
use webserv_team.Cgi.{process_cgi_output}
use webserv_team.Cgi.Process.{CgiProcess, drop_output, terminate_process}
use webserv_team.Client.{
  Reaction, reacts, crashes, hangs, ◌>>=◌, Client, delete_cgi, update_activity, time_out_seconds,
}

-- The descriptor and the process of a handler whose script is done.
unfoldable pub reap : {W : Type 0} → Kernel W → CgiProcess → Machine W → Machine W
reap k p m =
    let m' = drop_output k p.output_fd m in
    elim p.pid [ none ↦ m' | some pid ↦ record m' { world = k.wait pid m'.world } ]

-- `onCGIComplete` of the pending handler, which is deleted; it has nothing left to close but the file
-- of the body.
unfoldable pub on_cgi_complete :
    {W : Type 0} → Kernel W → CgiProcess → ResponseBuilder → Client → Machine W → Client × Machine W
on_cgi_complete k p r c m =
    let r' = include_required_headers k.os m.world r in
    (
      record c {
        response_builder = some r';
        response_buffer = generate_response_string r';
        response_ready = true;
        waiting_for_cgi = false;
        pending_cgi = none;
        is_shared = false;
      },
      delete_cgi k c.is_started (some p) m,
    )

-- `finalizeCGI`: the output goes to the builder, the pipe is closed and the client is told.
unfoldable pub finalize_cgi :
    {W : Type 0} → Kernel W → CgiProcess → Client → Machine W → Reaction (Client × Machine W)
finalize_cgi k p c m =
    let finished = record p { output_fd = none; pid = none; is_completed = true } in
    if not c.is_shared then crashes else elim c.response_builder [
      | none ↦ crashes
      | some r ↦
          reacts (on_cgi_complete k finished (process_cgi_output p.cgi_output r) c (reap k p m))
    ]

-- The branch for `EPOLLIN`: more output, or its end.
unfoldable pub read_output :
    {W : Type 0} → Kernel W → ℕ → CgiProcess → Client → Machine W → Reaction (Client × Machine W)
read_output k fd p c m =
    let (bytes, w) = k.read fd 1023 m.world in
    let m' = record m { world = w } in
    elim bytes [
      | none ↦ finalize_cgi k p c m'
      | some [] ↦ finalize_cgi k p c m'
      | some (b ∷ bs) ↦
          reacts
            (record c { pending_cgi = some (record p { cgi_output = p.cgi_output ++ b ∷ bs }) }, m')
    ]

-- `EPOLLHUP` and `EPOLLERR`, on what the branch in front has left; a handler that is deleted by then
-- is used all the same.
unfoldable pub on_hang_up :
    {W : Type 0} → Kernel W → Bool → Client × Machine W → Reaction (Client × Machine W)
on_hang_up k false (c, m) = reacts (c, m)
on_hang_up k true (c, m) = elim c.pending_cgi [ none ↦ crashes | some p ↦ finalize_cgi k p c m ]

unfoldable pub on_error :
    {W : Type 0} → Kernel W → Bool → Client × Machine W → Reaction (Client × Machine W)
on_error k false (c, m) = reacts (c, m)
on_error k true (c, m) = elim c.pending_cgi [
  | none ↦ crashes
  | some p ↦
      let (p', m') = terminate_process k c.is_started p m in
      reacts (record c { pending_cgi = some p' }, m')
]

abbrev pub is_fd : Option ℕ → ℕ → Bool
is_fd none fd = false
is_fd (some n) fd = n == fd

-- `CGIHandler::onEvent` of the pending handler.
unfoldable pub on_script_event :
    {W : Type 0} → Kernel W → ℕ → Events → Client → Machine W → Reaction (Client × Machine W)
on_script_event k fd e c m = elim c.pending_cgi [
  | none ↦ crashes
  | some p ↦ if not (is_fd p.output_fd fd) then reacts (c, m) else do
    read ← (if e.input then read_output k fd p c m else reacts (c, m))
    ended ← on_hang_up k e.hang_up read
    on_error k e.error ended
]

-- The answer to a script that takes too long, with a builder of its own.
unfoldable pub give_up :
    {W : Type 0} → Kernel W → CgiProcess → Client → Machine W → Reaction (Client × Machine W)
give_up k p c m =
    let m' = delete_cgi k c.is_started (some p) m in
    elim c.parser [
      | none ↦ crashes
      | some s ↦
          let r = fail_with k.os m'.world 504 (new_response k.os m'.world s) in
          reacts (
            record c {
              pending_cgi = none;
              is_shared = false;
              waiting_for_cgi = false;
              response_buffer = generate_response_string (include_required_headers k.os m'.world r);
              response_ready = true;
            },
            m',
          )
    ]

-- `checkCGIProgress`.
unfoldable pub check_cgi_progress :
    {W : Type 0} → Kernel W → Client → Machine W → Reaction (Client × Machine W)
check_cgi_progress k c m = elim c.pending_cgi [
  | none ↦ reacts (c, m)
  | some p ↦
      let c' = update_activity k m c in
      if not c.waiting_for_cgi
      then reacts (c, m)
      else if ltb time_out_seconds (k.now m.world - p.start_time)
      then give_up k p c' m
      else reacts (c', m)
]
