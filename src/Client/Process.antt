-- ===== src/Client/Process.antt =====
-- From a parsed request to a response or a script, in srcs/Server/ClientServer.cpp.
pub mod Answers
use webserv_team.Base.{
  ℕ, zero, suc, ◌+◌, ◌-◌, ◌*◌, ◌/◌, ◌%◌, ◌^◌, ◌≤◌, ◌<◌, min, ◌≡◌, refl, sym, ap, ◌∙◌, ◌≢◌, ◌↔◌, ◌⊎◌,
  inl, inr, Bool, true, false, not, ◌&&◌, ◌||◌, Option, none, some, List, [], ◌∷◌, ◌++◌, map,
  String, arith, ltb, leb, ◌==◌, if◌then◌else◌, ==_iff, Bool-cases, Option-cases, Bytes, codes,
  length, is_empty, take, drop, length-append, length-take, length-drop, take-append-drop,
  take-append, drop-append, take-append_long, drop-append_long, take_all, drop_all, take-min,
  drop-min, All, All-append, ◌=ᵇ◌, =ᵇ_iff, =ᵇ_self, has_byte, cut, cut-append, starts_with, find,
  ends_in, starts_in,
}
use webserv_team.Config.{Location}
use webserv_team.Request.{RequestParser}
use webserv_team.Request.Setters.{set_request_line}
use webserv_team.Request.Routing.{is_cgi_request}
use webserv_team.Response.{Os, ResponseBuilder, set_body, set_status}
use webserv_team.Response.Pages.{fail_with, include_required_headers}
use webserv_team.Response.Build.{
  new_response, init_routes, find_route, generate_response_string, answer,
}
use webserv_team.Kernel.{Events, Kernel}
use webserv_team.Multiplexer.{Listener, script_of, Machine}
use webserv_team.Cgi.Process.{CgiProcess, new_process, start_cgi}
use webserv_team.Client.{Reaction, reacts, crashes, hangs, ◌>>=◌, Client, delete_cgi}

-- A status, its page, and the response as the one to send.
unfoldable pub answer_with :
    {W : Type 0} → Kernel W → ℕ → ResponseBuilder → Machine W → Client → Client
answer_with k code r m c =
    let r' = include_required_headers k.os m.world (fail_with k.os m.world code r) in
    record c {
      response_builder = some r';
      response_buffer = generate_response_string r';
      response_ready = true;
    }

-- A builder that is deleted leaves the pointer of a pending handler without an object.
unfoldable pub process_normal_request :
    {W : Type 0} → Kernel W → RequestParser → Client → Machine W → Client × Machine W
process_normal_request k s c m =
    let (answered, w) = answer k.os m.world (new_response k.os m.world s) in
    let r = include_required_headers k.os w answered in
    (
      record c {
        response_builder = some r;
        is_shared = false;
        response_buffer = generate_response_string r;
        response_ready = true;
      },
      record m { world = w },
    )

-- A script that could not be made or started: whatever handler the client has is deleted.
unfoldable pub fail_script :
    {W : Type 0} → Kernel W → ResponseBuilder → Client → Machine W → Client × Machine W
fail_script k r c m =
    let m' = delete_cgi k c.is_started c.pending_cgi m in
    (answer_with k 500 r m' (record c { pending_cgi = none; is_shared = false }), m')

-- The `try` around the handler; a handler that is pending already is given up, not deleted.
unfoldable pub run_script :
    {W : Type 0}
    → Kernel W
    → Location
    → Bytes
    → RequestParser
    → ResponseBuilder
    → Client
    → Machine W
    → Client × Machine W
run_script k l cgi_path s r c m =
    let (made, m') = new_process k l cgi_path s r m in
    elim made [
      | none ↦ fail_script k r c m'
      | some p ↦
          let (started, (p', m'')) = start_cgi k (script_of c.place) p m' in
          let c' = record c { pending_cgi = some p'; is_shared = true } in
          if started then (record c' { waiting_for_cgi = true }, m'') else fail_script k r c' m''
    ]

-- `processCGIRequest` with the builder at hand and the location of the builder.
unfoldable pub process_cgi_at :
    {W : Type 0}
    → Kernel W
    → Location
    → RequestParser
    → ResponseBuilder
    → Client
    → Machine W
    → Reaction (Client × Machine W)
process_cgi_at k l s r c m =
    let routed = record r { routes = init_routes l.allowed_methods r.routes } in
    let c' = record c { response_builder = some routed } in
    if not l.use_cgi
    then reacts (answer_with k 405 r m c, m)
    else elim (find_route s.http_method routed.routes) [
      | none ↦ reacts (answer_with k 405 routed m c', m)
      | some _ ↦
          if is_empty l.cgi_path
          then reacts (fail_script k routed c' m)
          else elim s.location_config [
            | none ↦ crashes
            | some own ↦ reacts (run_script k own l.cgi_path s routed c' m)
          ]
    ]

-- `processCGIRequest`: a builder that is there is used again.
unfoldable pub process_cgi_request :
    {W : Type 0} → Kernel W → RequestParser → Client → Machine W → Reaction (Client × Machine W)
process_cgi_request k s c m =
    let r : ResponseBuilder = elim c.response_builder [
      | none ↦ new_response k.os m.world s
      | some old ↦ old
    ] in
    elim r.location_config [
      | none ↦ crashes
      | some l ↦ process_cgi_at k l s r (record c { response_builder = some r }) m
    ]

unfoldable pub process_completed_request :
    {W : Type 0} → Kernel W → RequestParser → Client → Machine W → Reaction (Client × Machine W)
process_completed_request k s c m =
    let s' = set_request_line s in
    let c' = record c { parser = some s' } in
    if is_cgi_request s' && not (s'.http_method =ᵇ codes "DELETE")
    then process_cgi_request k s' c' m
    else reacts (process_normal_request k s' c' m)
