-- ===== src/Client/Script/Keeps.antt =====
-- What the events of a script keep of a client.
use webserv_team.Base.{
  ℕ, ◌≡◌, inl, inr, Bool, true, false, some, arith, if◌then◌else◌, Option-cases,
}
use webserv_team.Response.Pages.{fail_with, include_required_headers}
use webserv_team.Response.Build.{new_response}
use webserv_team.Kernel.{Events, Kernel}
use webserv_team.Multiplexer.{Machine}
use webserv_team.Cgi.{process_cgi_output}
use webserv_team.Cgi.Process.{CgiProcess}
use webserv_team.Client.{Reaction, reacts, ◌>>=◌, Client, update_activity, delete_cgi}
use webserv_team.Client.Script.{
  on_cgi_complete, finalize_cgi, read_output, on_hang_up, on_error, on_script_event, give_up,
  check_cgi_progress, reap,
}
use webserv_team.Client.Invariant.{IsSound, IsLive, generate_full}
use webserv_team.Client.Outcome.{Holds, Holds-bind}

module _ {W : Type 0} (k : Kernel W) where
  finalize_cgi-IsLive :
      (p : CgiProcess) (c : Client) (m : Machine W)
      → IsLive c
      → Holds (λ x. IsLive x.0) (finalize_cgi k p c m)
  unfolding finalize_cgi on_cgi_complete
  finalize_cgi-IsLive p c m (started, h) = elim (Option-cases c.response_builder) [
    | inl none_there ↦ ground arith
    | inr (r, is_r) ↦ ground (
      arith,
      generate_full
          (include_required_headers k.os (reap k p m).world (process_cgi_output p.cgi_output r)),
    )
  ]

  read_output-IsLive :
      (fd : ℕ) (p : CgiProcess) (c : Client) (m : Machine W)
      → IsLive c
      → c.pending_cgi ≡ some p
      → Holds (λ x. IsLive x.0) (read_output k fd p c m)
  unfolding read_output
  read_output-IsLive fd p c m (started, h) e =
      let (bytes, w) = k.read fd 1023 m.world in
      ground (arith, finalize_cgi-IsLive p c (record m { world = w }) (started, h))

  on_hang_up-IsLive :
      (b : Bool) (x : Client × Machine W) → IsLive x.0 → Holds (λ y. IsLive y.0) (on_hang_up k b x)
  unfolding on_hang_up
  on_hang_up-IsLive false (c, m) live = live
  on_hang_up-IsLive true (c, m) live = elim (Option-cases c.pending_cgi) [
    | inl deleted ↦ ground arith
    | inr (p, is_p) ↦ ground (arith, finalize_cgi-IsLive p c m live)
  ]

  on_error-IsLive :
      (b : Bool) (x : Client × Machine W) → IsLive x.0 → Holds (λ y. IsLive y.0) (on_error k b x)
  unfolding on_error
  on_error-IsLive false (c, m) live = live
  on_error-IsLive true (c, m) live = ground arith

  pub on_script_event-IsLive :
      (fd : ℕ) (e : Events) (c : Client) (m : Machine W)
      → IsLive c
      → Holds (λ x. IsLive x.0) (on_script_event k fd e c m)
  unfolding on_script_event
  on_script_event-IsLive fd e c m live = elim (Option-cases c.pending_cgi) [
    | inl deleted ↦ ground arith
    | inr (p, is_p) ↦
        let read : Reaction (Client × Machine W) =
          if e.input then read_output k fd p c m else reacts (c, m) in
        let reading : Holds (λ x. IsLive x.0) read =
          ground (arith, read_output-IsLive fd p c m live is_p) in
        let ending =
          Holds-bind (λ x. IsLive x.0) (λ x. IsLive x.0) read (on_hang_up k e.hang_up) reading
            (on_hang_up-IsLive e.hang_up) in
        let failing =
          Holds-bind (λ x. IsLive x.0) (λ x. IsLive x.0) (read >>= on_hang_up k e.hang_up)
            (on_error k e.error) ending (on_error-IsLive e.error) in
        ground (arith, failing)
  ]

  pub check_cgi_progress-IsSound :
      (c : Client) (m : Machine W) → IsSound c → Holds (λ x. IsSound x.0) (check_cgi_progress k c m)
  unfolding check_cgi_progress give_up update_activity
  check_cgi_progress-IsSound c m h = elim (Option-cases c.pending_cgi) [
    | inl deleted ↦ ground (arith, h)
    | inr (p, is_p) ↦ elim (Option-cases c.parser) [
      | inl new ↦ ground arith
      | inr (s, is_s) ↦
          let m' = delete_cgi k c.is_started (some p) m in
          let r = fail_with k.os m'.world 504 (new_response k.os m'.world s) in
          ground (arith, generate_full (include_required_headers k.os m'.world r))
    ]
  ]
