-- ===== src/Client/Sending/Keeps.antt =====
-- What sending, and the events of a socket, keep of a client.
use webserv_team.Base.{
  ℕ, inl, inr, false, none, some, [], arith, ltb, if◌then◌else◌, Bool-cases, length, is_empty, drop,
}
use webserv_team.Kernel.{Events, Kernel}
use webserv_team.Multiplexer.{Machine}
use webserv_team.Client.{Reaction, reacts, Client, update_activity}
use webserv_team.Client.Reading.{handle_incoming_data}
use webserv_team.Client.Script.{check_cgi_progress}
use webserv_team.Client.Sending.{
  is_response_ready, send_response_chunk, drop_failed_parser, finalize_response, handle_response,
  on_output, on_event,
}
use webserv_team.Client.Invariant.{IsSound, IsLive, terminate-IsSound}
use webserv_team.Client.Outcome.{Holds, Holds-bind}
use webserv_team.Client.Reading.Keeps.{handle_incoming_data-IsSound}
use webserv_team.Client.Script.Keeps.{check_cgi_progress-IsSound}

module _ {W : Type 0} (k : Kernel W) where
  finalize_response-IsSound :
      (c : Client) (m : Machine W)
      → IsSound (record c { response_ready = false })
      → IsSound (finalize_response k c m).0
  unfolding finalize_response drop_failed_parser
  finalize_response-IsSound c m h =
      let c' = record c {
        response_ready = false;
        response_builder = none;
        is_shared = elim c.response_builder [ none ↦ c.is_shared | some _ ↦ false ];
      } in
      let sound : IsSound c' = ground arith in ground (arith, terminate-IsSound k c' m sound)

  handle_response-IsSound :
      (c : Client) (m : Machine W) → IsSound c → IsSound (handle_response k c m).0
  unfolding handle_response send_response_chunk update_activity is_response_ready
  handle_response-IsSound c m h =
      let (sent, w) = k.send c.peer_socket_fd c.response_buffer m.world in
      let m' = record m { world = w } in
      let rest = if ltb sent (length c.response_buffer) then drop sent c.response_buffer else [] in
      let c' = record c { last_activity = k.now w; response_buffer = rest } in
      elim (Bool-cases (is_response_ready c)) [
        | inr idle ↦ ground (arith, h)
        | inl ready ↦ elim (Bool-cases (is_empty rest)) [
          | inr more ↦ ground (arith, terminate-IsSound k c m h, terminate-IsSound k c m' h)
          | inl all ↦
              let ended : IsSound (record c' { response_ready = false }) = ground arith in
              ground (
                arith,
                terminate-IsSound k c m h,
                terminate-IsSound k c m' h,
                finalize_response-IsSound c' m' ended,
              )
        ]
      ]

  on_output-IsSound :
      (c : Client) (m : Machine W) → IsSound c → Holds (λ x. IsSound x.0) (on_output k c m)
  unfolding on_output
  on_output-IsSound c m h =
      let checked : Reaction (Client × Machine W) =
        if c.waiting_for_cgi then check_cgi_progress k c m else reacts (c, m) in
      let checking : Holds (λ x. IsSound x.0) checked =
        ground (arith, check_cgi_progress-IsSound k c m h) in
      Holds-bind (λ x. IsSound x.0) (λ x. IsSound x.0) checked
        (λ x. reacts (handle_response k x.0 x.1)) checking
        (λ x h'. handle_response-IsSound x.0 x.1 h')

  pub on_event-IsSound :
      (fuel : ℕ) (e : Events) (c : Client) (m : Machine W)
      → IsLive c
      → Holds (λ x. IsSound x.0) (on_event k fuel e c m)
  unfolding on_event
  on_event-IsSound fuel e c m live =
      let read : Reaction (Client × Machine W) =
        if e.input then handle_incoming_data k fuel c m else reacts (c, m) in
      let reading : Holds (λ x. IsSound x.0) read =
        ground (arith, handle_incoming_data-IsSound k fuel c m live, live.1) in
      Holds-bind (λ x. IsSound x.0) (λ x. IsSound x.0) read
        (λ x. if e.output then on_output k x.0 x.1 else reacts x) reading
        (λ x h. ground (arith, on_output-IsSound x.0 x.1 h, h))
