-- ===== src/Client/Process/Answers.antt =====
-- What becomes of a parsed request.
use webserv_team.Base.{
  ℕ, ◌≡◌, refl, ◌∙◌, ◌≢◌, ◌⊎◌, inl, inr, true, none, some, arith, Option-cases, Bytes, codes,
  =ᵇ_iff,
}
use webserv_team.Config.{Location}
use webserv_team.Request.{RequestParser}
use webserv_team.Request.Setters.{set_request_line}
use webserv_team.Request.Routing.{is_cgi_request, script_path}
use webserv_team.Response.{Os, ResponseBuilder, set_headers, set_body, set_status}
use webserv_team.Response.Session.{set_cookie}
use webserv_team.Response.Pages.{fail_with, error_page, custom_page, read_file}
use webserv_team.Response.Build.{
  new_response, init_config, process_session_cookie, init_routes, find_route,
}
use webserv_team.Kernel.{Kernel}
use webserv_team.Multiplexer.{Machine}
use webserv_team.Cgi.Process.{new_process}
use webserv_team.Client.{Reaction, reacts, crashes, hangs, Client}
use webserv_team.Client.Process.{
  answer_with, process_normal_request, fail_script, run_script, process_cgi_at, process_cgi_request,
  process_completed_request,
}

location_config-fail_with :
    {W : Type 0} (os : Os W) (w : W) (code : ℕ) (r : ResponseBuilder)
    → (fail_with os w code r).location_config ≡ r.location_config
unfolding fail_with error_page custom_page read_file set_status set_body set_headers
location_config-fail_with os w code r = ground arith

location_config-init_config :
    {W : Type 0} (os : Os W) (w : W) (r : ResponseBuilder)
    → r.location_config ≡ none
    → (init_config os w r).location_config ≡ r.request.location_config
unfolding init_config
location_config-init_config os w r empty = elim (Option-cases r.request.server_config) [
  | inl unserved ↦ ground (
    arith,
    location_config-fail_with os w 404 (record r { location_config = r.request.location_config }),
  )
  | inr (server, served) ↦
      ground (arith, location_config-fail_with os w 404 (record r { server_config = some server }))
]

location_config-process_session_cookie :
    {W : Type 0} (os : Os W) (w : W) (r : ResponseBuilder)
    → (process_session_cookie os w r).location_config ≡ r.location_config
unfolding process_session_cookie set_cookie set_headers
location_config-process_session_cookie os w r = ground arith

-- A new builder has the location of its request.
location_config-new_response :
    {W : Type 0} (os : Os W) (w : W) (s : RequestParser)
    → (new_response os w s).location_config ≡ s.location_config
unfolding new_response
location_config-new_response os w s =
    location_config-process_session_cookie os w _ ∙ location_config-init_config os w _ refl

-- The client has a response to send, or waits for a script.
abbrev pub IsAnswered : Client → Type 0
IsAnswered c = (c.response_ready ≡ true) ⊎ (c.waiting_for_cgi ≡ true)

-- The handler ends, without a crash, and leaves such a client.
abbrev pub Answers {ℓ} : {M : Type ℓ} → Reaction (Client × M) → Type 0
Answers (reacts (c, m)) = IsAnswered c
Answers crashes = ⊥
Answers hangs = ⊥

module _ {W : Type 0} (k : Kernel W) where
  run_script-IsAnswered :
      (l : Location) (path : Bytes) (s : RequestParser) (r : ResponseBuilder) (c : Client)
      (m : Machine W)
      → IsAnswered (run_script k l path s r c m).0
  unfolding run_script fail_script answer_with
  run_script-IsAnswered l path s r c m = elim (Option-cases (new_process k l path s r m).0) [
    | inl unmade ↦ ground arith
    | inr (p, made) ↦ ground arith
  ]

  process_cgi_at-Answers :
      (l : Location) (s : RequestParser) (r : ResponseBuilder) (c : Client) (m : Machine W)
      → s.location_config ≡ some l
      → Answers (process_cgi_at k l s r c m)
  unfolding process_cgi_at fail_script answer_with
  process_cgi_at-Answers l s r c m at =
      let routed = record r { routes = init_routes l.allowed_methods r.routes } in
      let c' = record c { response_builder = some routed } in
      elim (Option-cases (find_route s.http_method routed.routes)) [
        | inl unrouted ↦ ground arith
        | inr (handler, is_routed) ↦
            ground (arith, run_script-IsAnswered l l.cgi_path s routed c' m)
      ]

  -- A request that has got a location, whatever it asks for, is answered or handed to a script, by a
  -- client without the builder of an earlier request: its handling ends without a crash, and then a
  -- response is ready or the client waits for a script.
  pub process_completed_request-Answers :
      (s : RequestParser) (l : Location) (c : Client) (m : Machine W)
      → s.location_config ≡ some l
      → c.response_builder ≡ none
      → Answers (process_completed_request k s c m)
  unfolding process_completed_request process_normal_request process_cgi_request
  process_completed_request-Answers s l c m at fresh =
      let s' = set_request_line s in
      let c' = record c { parser = some s' } in
      let r = new_response k.os m.world s' in
      ground (
        arith,
        location_config-new_response k.os m.world s',
        process_cgi_at-Answers l s' r (record c' { response_builder = some r }) m at,
      )

  -- A request for a script that has got no location, since it has an error or no location covers it,
  -- crashes the server, unless its method is DELETE: the location is read through a null pointer.
  pub process_completed_request_crashes :
      (s : RequestParser) (c : Client) (m : Machine W)
      → s.location_config ≡ none
      → c.response_builder ≡ none
      → is_cgi_request s ≡ true
      → s.http_method ≢ codes "DELETE"
      → process_completed_request k s c m ≡ crashes
  unfolding process_completed_request process_cgi_request is_cgi_request script_path
  process_completed_request_crashes s c m nowhere fresh script other =
      let s' = set_request_line s in
      ground
        (arith, location_config-new_response k.os m.world s', =ᵇ_iff s.http_method (codes "DELETE"))
