-- ===== src/Client/Invariant.antt =====
-- What holds of a client between two events.
use webserv_team.Base.{
  ℕ, ◌≡◌, refl, ◌⊎◌, inl, inr, true, false, not, none, some, List, [], ◌∷◌, ◌++◌, arith, Bool-cases,
  Option-cases, Bytes, is_empty,
}
use webserv_team.Request.{RequestParser}
use webserv_team.Response.{ResponseBuilder}
use webserv_team.Response.Build.{
  generate_response_string, answer, new_response, init_routes, find_route,
}
use webserv_team.Request.Setters.{set_request_line}
use webserv_team.Response.Pages.{fail_with, include_required_headers}
use webserv_team.Kernel.{Kernel}
use webserv_team.Multiplexer.{Machine, script_of}
use webserv_team.Multiplexer.Refines.{is_some}
use webserv_team.Config.{Location}
use webserv_team.Cgi.Process.{new_process, start_cgi}
use webserv_team.Client.Outcome.{Holds}
use webserv_team.Client.{Client, terminate, new_client}
use webserv_team.Client.Process.{
  answer_with, process_normal_request, fail_script, run_script, process_cgi_at, process_cgi_request,
  process_completed_request,
}

pub record IsSound (c : Client) : Type 0 where
  pub idle_parser : (c.is_started ≡ true) ⊎ (c.parser ≡ none)
  pub idle_cgi : (c.is_started ≡ true) ⊎ (c.pending_cgi ≡ none)
  pub idle_request : (c.is_started ≡ true) ⊎ (c.request_buffer ≡ [])
  pub idle_response : (c.is_started ≡ true) ⊎ (c.response_ready ≡ false)
  pub pending_waits : (c.pending_cgi ≡ none) ⊎ (c.waiting_for_cgi ≡ true)
  pub shared_pending : (c.is_shared ≡ false) ⊎ (is_some c.pending_cgi ≡ true)
  pub shared_builder : (c.is_shared ≡ false) ⊎ (is_some c.response_builder ≡ true)
  pub ready_full : is_empty c.response_buffer ≡ not c.response_ready

-- A client that is started, between two events.
abbrev pub IsLive : Client → Type 0
IsLive c = (c.is_started ≡ true) × IsSound c

is_empty-middle : (a b l : Bytes) (x : ℕ) → is_empty ((a ++ x ∷ l) ++ b) ≡ false
is_empty-middle [] b l x = refl
is_empty-middle (y ∷ a) b l x = refl

pub generate_full : (r : ResponseBuilder) → is_empty (generate_response_string r) ≡ false
unfolding generate_response_string
generate_full r = is_empty-middle _ r.body _ _

pub new_client-IsSound :
    (place server_fd peer_fd now : ℕ) (configs : List _)
    → IsSound (new_client place server_fd peer_fd configs now)
unfolding new_client
new_client-IsSound place server_fd peer_fd now configs = ground arith

module _ {W : Type 0} (k : Kernel W) where
  pub terminate-IsSound : (c : Client) (m : Machine W) → IsSound c → IsSound (terminate k c m).0
  unfolding terminate
  terminate-IsSound c m h = ground arith

  answer_with-IsLive :
      (code : ℕ) (r : ResponseBuilder) (m : Machine W) (c : Client)
      → IsLive c
      → IsLive (answer_with k code r m c)
  unfolding answer_with
  answer_with-IsLive code r m c (started, h) =
      ground (
        arith,
        generate_full (include_required_headers k.os m.world (fail_with k.os m.world code r)),
      )

  process_normal_request-IsLive :
      (s : RequestParser) (c : Client) (m : Machine W)
      → IsLive c
      → IsLive (process_normal_request k s c m).0
  unfolding process_normal_request
  process_normal_request-IsLive s c m (started, h) =
      let (answered, w) = answer k.os m.world (new_response k.os m.world s) in
      ground (arith, generate_full (include_required_headers k.os w answered))

  fail_script-IsLive :
      (r : ResponseBuilder) (c : Client) (m : Machine W)
      → c.is_started ≡ true
      → is_empty c.response_buffer ≡ not c.response_ready
      → IsLive (fail_script k r c m).0
  unfolding fail_script
  fail_script-IsLive r c m started full = answer_with-IsLive 500 r _ _ (ground arith)

  run_script-IsLive :
      (l : Location) (path : Bytes) (s : RequestParser) (r : ResponseBuilder) (c : Client)
      (m : Machine W)
      → c.response_builder ≡ some r
      → IsLive c
      → IsLive (run_script k l path s r c m).0
  unfolding run_script
  run_script-IsLive l path s r c m e (started, h) =
      let (made, m') = new_process k l path s r m in
      elim (Option-cases made) [
        | inl none_made ↦ ground (arith, fail_script-IsLive r c m' started h.ready_full)
        | inr (p, is_made) ↦
            let (started_p, (p', m'')) = start_cgi k (script_of c.place) p m' in
            let c' = record c { pending_cgi = some p'; is_shared = true } in
            ground (arith, fail_script-IsLive r c' m'' started h.ready_full)
      ]

  process_cgi_at-IsLive :
      (l : Location) (s : RequestParser) (r : ResponseBuilder) (c : Client) (m : Machine W)
      → IsLive c
      → Holds (λ x. IsLive x.0) (process_cgi_at k l s r c m)
  unfolding process_cgi_at
  process_cgi_at-IsLive l s r c m (started, h) =
      let routed = record r { routes = init_routes l.allowed_methods r.routes } in
      let c' = record c { response_builder = some routed } in
      let live : IsLive c' = ground arith in
      elim (Bool-cases l.use_cgi) [
        | inr off ↦ ground (arith, answer_with-IsLive 405 r m c (started, h))
        | inl on ↦ elim (Option-cases (find_route s.http_method routed.routes)) [
          | inl unrouted ↦ ground (arith, answer_with-IsLive 405 routed m c' live)
          | inr (handler, is_routed) ↦ elim (Option-cases s.location_config) [
            | inl nowhere ↦ ground (arith, fail_script-IsLive routed c' m started h.ready_full)
            | inr (own, at) ↦ ground (
              arith,
              fail_script-IsLive routed c' m started h.ready_full,
              run_script-IsLive own l.cgi_path s routed c' m refl live,
            )
          ]
        ]
      ]

  process_cgi_request-IsLive :
      (s : RequestParser) (c : Client) (m : Machine W)
      → IsLive c
      → Holds (λ x. IsLive x.0) (process_cgi_request k s c m)
  unfolding process_cgi_request
  process_cgi_request-IsLive s c m (started, h) =
      let r : ResponseBuilder = elim c.response_builder [
        | none ↦ new_response k.os m.world s
        | some old ↦ old
      ] in
      elim (Option-cases r.location_config) [
        | inl nowhere ↦ ground arith
        | inr (l, at) ↦ ground (
          arith,
          process_cgi_at-IsLive l s r (record c { response_builder = some r }) m (ground arith),
        )
      ]

  pub process_completed_request-IsLive :
      (s : RequestParser) (c : Client) (m : Machine W)
      → IsLive c
      → Holds (λ x. IsLive x.0) (process_completed_request k s c m)
  unfolding process_completed_request
  process_completed_request-IsLive s c m (started, h) =
      let s' = set_request_line s in
      let c' = record c { parser = some s' } in
      let live : IsLive c' = ground arith in
      ground
        (arith, process_normal_request-IsLive s' c' m live, process_cgi_request-IsLive s' c' m live)
