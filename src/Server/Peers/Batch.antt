-- ===== src/Server/Peers/Batch.antt =====
-- Events of one batch that meet a listener which an earlier one has removed.
use webserv_team.Base.{ℕ, ◌≡◌, true, false, some, List, [], ◌∷◌, arith}
use webserv_team.Request.{RequestParser}
use webserv_team.Kernel.{Events, Kernel}
use webserv_team.Multiplexer.{unknown_fd, client_at, Machine, find_listener, run_events}
use webserv_team.Multiplexer.Table.{IsSorted}
use webserv_team.Client.{reacts, Client, terminate}
use webserv_team.Client.Reading.{receive, read_incoming_data, handle_incoming_data}
use webserv_team.Client.Sending.{is_response_ready, handle_response, on_output, on_event}
use webserv_team.Client.Script.{is_fd}
use webserv_team.Client.Release.{output_of, find-terminate}
use webserv_team.Server.Peers.{WebServer, client_of, after_client, dispatch_event}

module _ {W : Type 0} (k : Kernel W) where
  -- A peer that has gone ends the client.
  on_event_gone :
      (fuel : ℕ) (e : Events) (c : Client) (s : RequestParser) (m : Machine W)
      → e.input ≡ true
      → c.is_started ≡ true
      → c.parser ≡ some s
      → s.has_content_length ≡ false
      → (k.recv c.peer_socket_fd 1024 m.world).0 ≡ []
      → on_event k fuel e c m
        ≡ reacts (terminate k c (record m { world = (k.recv c.peer_socket_fd 1024 m.world).1 }))
  unfolding on_event handle_incoming_data read_incoming_data receive on_output handle_response
      is_response_ready terminate
  on_event_gone fuel e c s m input started is_s unsized gone = ground arith

  -- A client whose peer has gone, and whose script is still running, takes the listener of the script out
  -- of the table: where an event of the script stands behind that of the client in one batch, the event
  -- loop finds no listener for it and throws, which ends the server. The table is in order, the client
  -- is connected and has a parsed request without a body, and `recv` gives no bytes.
  pub run_events_removed :
      (fuel i o : ℕ) (e f : Events) (events : List (ℕ × Events)) (p : WebServer W) (c : Client)
      (s : RequestParser)
      → p.is_alive ≡ true
      → IsSorted p.machine.listeners
      → client_of i p.server.clients ≡ some c
      → find_listener c.peer_socket_fd p.machine.listeners ≡ some (client_at i)
      → e.input ≡ true
      → c.is_started ≡ true
      → c.parser ≡ some s
      → s.has_content_length ≡ false
      → is_fd (output_of c.pending_cgi) o ≡ true
      → (k.recv c.peer_socket_fd 1024 p.machine.world).0 ≡ []
      → (run_events
          (λ q. q.machine)
          (dispatch_event k fuel)
          ((c.peer_socket_fd, e) ∷ (o, f) ∷ events)
          p).0
        ≡ some unknown_fd
  unfolding run_events dispatch_event after_client
  run_events_removed fuel i o e f events p c s alive sorted at listens input started is_s unsized
        script gone =
      let m' = record p.machine { world = (k.recv c.peer_socket_fd 1024 p.machine.world).1 } in
      let step = on_event_gone fuel e c s p.machine input started is_s unsized gone in
      let removed = find-terminate k c o m' sorted started in ground (arith, step, removed)
