-- ===== src/Client/Reading/Keeps.antt =====
-- What reading keeps of a client.
use webserv_team.Base.{ℕ, ◌≡◌, ◌⊎◌, inl, inr, true, false, some, arith, Bool-cases, Option-cases}
use webserv_team.Request.{RequestParser}
use webserv_team.Request.Body.{parse_body}
use webserv_team.Response.Pages.{fail_with, include_required_headers}
use webserv_team.Response.Build.{generate_response_string, new_response}
use webserv_team.Kernel.{Kernel}
use webserv_team.Multiplexer.{Machine}
use webserv_team.Client.{Client, update_activity}
use webserv_team.Client.Reading.{
  send_error_response, receive, read_incoming_data, handle_expect_continue, read_body, read_headers,
  process_request_headers, process_data, handle_incoming_data,
}
use webserv_team.Client.Invariant.{
  IsSound, IsLive, terminate-IsSound, process_completed_request-IsLive,
}
use webserv_team.Client.Outcome.{Holds, Run-cases, Holds-bind, Holds-map}

module _ {W : Type 0} (k : Kernel W) where
  receive-IsSound :
      (c : Client) (m : Machine W)
      → IsLive c
      → IsSound (receive k c m).1.0
        × (((receive k c m).0 ≡ false) ⊎ ((receive k c m).1.0.is_started ≡ true))
  unfolding receive update_activity
  receive-IsSound c m (started, h) =
      let (bytes, w) = k.recv c.peer_socket_fd 1024 m.world in
      ground (arith, terminate-IsSound k c (record m { world = w }) h)

  read_incoming_data-IsSound :
      (c : Client) (m : Machine W)
      → IsLive c
      → Holds
          (λ x. IsSound x.1.0 × ((x.0 ≡ false) ⊎ (x.1.0.is_started ≡ true)))
          (read_incoming_data k c m)
  unfolding read_incoming_data send_error_response
  read_incoming_data-IsSound c m (started, h) = elim (Option-cases c.parser) [
    | inl new ↦ ground (arith, receive-IsSound c m (started, h))
    | inr (s, is_s) ↦ elim (Option-cases s.server_config) [
      | inl nowhere ↦ ground (arith, receive-IsSound c m (started, h))
      | inr (server, at) ↦
          let r = fail_with k.os m.world 413 (new_response k.os m.world s) in
          let response = generate_response_string (include_required_headers k.os m.world r) in
          let sent = record m { world = (k.send c.peer_socket_fd response m.world).1 } in
          ground (arith, receive-IsSound c m (started, h), terminate-IsSound k c sent h)
    ]
  ]

  handle_expect_continue-IsLive :
      (c : Client) (m : Machine W) → IsLive c → IsLive (handle_expect_continue k c m).0
  unfolding handle_expect_continue
  handle_expect_continue-IsLive c m (started, h) = ground arith

  read_body-IsLive :
      (s : RequestParser) (c : Client) (m : Machine W)
      → IsLive c
      → Holds (λ x. IsLive x.0) (read_body k s c m)
  unfolding read_body
  read_body-IsLive s c m (started, h) = elim (Run-cases (parse_body s c.request_buffer)) [
    | inl ((s', rest), read) ↦
        let c' = record c { parser = some s'; request_buffer = rest } in
        let live : IsLive c' = ground arith in
        ground (arith, process_completed_request-IsLive k s' c' m live)
    | inr fails ↦ ground arith
  ]

  process_request_headers-IsLive :
      (fuel : ℕ) (c : Client) (m : Machine W)
      → IsLive c
      → Holds (λ x. IsLive x.0) (process_request_headers k fuel c m)
  unfolding process_request_headers
  process_request_headers-IsLive fuel c m (started, h) =
      elim (Run-cases (read_headers k fuel c m)) [
        | inl ((s', rest), read) ↦
            let c' = record c { parser = some s'; request_buffer = rest } in
            let live : IsLive c' = ground arith in
            ground (arith, process_completed_request-IsLive k s' c' m live)
        | inr fails ↦ ground arith
      ]

  process_data-IsLive :
      (fuel : ℕ) (c : Client) (m : Machine W)
      → IsLive c
      → Holds (λ x. IsLive x.0) (process_data k fuel c m)
  unfolding process_data
  process_data-IsLive fuel c m live = elim (Option-cases c.parser) [
    | inl new ↦ ground (arith, process_request_headers-IsLive fuel c m live)
    | inr (s, is_s) ↦
        ground (arith, process_request_headers-IsLive fuel c m live, read_body-IsLive s c m live)
  ]

  pub handle_incoming_data-IsSound :
      (fuel : ℕ) (c : Client) (m : Machine W)
      → IsLive c
      → Holds (λ x. IsSound x.0) (handle_incoming_data k fuel c m)
  unfolding handle_incoming_data
  handle_incoming_data-IsSound fuel c m live =
      Holds-bind _ _ (read_incoming_data k c m) _ (read_incoming_data-IsSound c m live)
        (λ (more, (c', m')) (h, going). elim (Bool-cases more) [
          | inl on ↦
              let (c'', m'') = handle_expect_continue k c' m' in
              let live' : IsLive c'' = handle_expect_continue-IsLive c' m' (ground arith, h) in
              rw on (
                Holds-map (λ x. IsLive x.0) (λ x. IsSound x.0) (process_data k fuel c'' m'')
                  (process_data-IsLive fuel c'' m'' live') (λ x live''. live''.1))
          | inr off ↦ rw off h
        ])
