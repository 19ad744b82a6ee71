-- ===== src/Client/Reachable.antt =====
-- What holds of a client after any events.
use webserv_team.Base.{ℕ, ◌≡◌, true, false, arith}
use webserv_team.Kernel.{Events, Kernel}
use webserv_team.Multiplexer.{Machine}
use webserv_team.Client.{
  reacts, Client, terminate, register_with_io_multiplexer, set_peer_socket_fd, set_server_socket_fd,
}
use webserv_team.Client.Script.{on_script_event}
use webserv_team.Client.Sending.{on_event}
use webserv_team.Client.Invariant.{IsSound, IsLive, terminate-IsSound}
use webserv_team.Client.Outcome.{Holds-reacts}
use webserv_team.Client.Script.Keeps.{on_script_event-IsLive}
use webserv_team.Client.Sending.Keeps.{on_event-IsSound}

-- What happens to a client, each with what it leaves: its registration with a descriptor of a new
-- peer, an event of its socket, an event of its script's pipe, its end.
pub data Step {W : Type 0} (k : Kernel W) (c : Client) : Client → Type 0 where
  registers :
      (server_fd fd : ℕ) (m : Machine W)
      → c.is_started ≡ false
      → Step k c
          (register_with_io_multiplexer k
            (set_server_socket_fd server_fd (set_peer_socket_fd fd c))
            m).0
  socket_event :
      (fuel : ℕ) (e : Events) (m m' : Machine W) (c' : Client)
      → c.is_started ≡ true
      → on_event k fuel e c m ≡ reacts (c', m')
      → Step k c c'
  script_event :
      (fd : ℕ) (e : Events) (m m' : Machine W) (c' : Client)
      → c.is_started ≡ true
      → on_script_event k fd e c m ≡ reacts (c', m')
      → Step k c c'
  terminates : (m : Machine W) → Step k c (terminate k c m).0

pub data Reach {W : Type 0} (k : Kernel W) (c : Client) : Client → Type 0 where
  here : Reach k c c
  next : {d e : Client} → Reach k c d → Step k d e → Reach k c e

registers-IsSound :
    {W : Type 0} (k : Kernel W) (c : Client) (m : Machine W)
    → IsSound c
    → IsSound (register_with_io_multiplexer k c m).0
unfolding register_with_io_multiplexer
registers-IsSound k c m h = ground arith

module _ {W : Type 0} {k : Kernel W} where
  Step-IsSound : {c d : Client} → IsSound c → Step k c d → IsSound d
  unfolding set_server_socket_fd set_peer_socket_fd
  Step-IsSound h (registers server_fd fd m idle) = registers-IsSound k _ m (ground arith)
  Step-IsSound {c = c} h (socket_event fuel e m m' c' started r) =
      Holds-reacts (λ x. IsSound x.0) (on_event k fuel e c m) (c', m')
        (on_event-IsSound k fuel e c m (started, h)) r
  Step-IsSound {c = c} h (script_event fd e m m' c' started r) =
      (Holds-reacts (λ x. IsLive x.0) (on_script_event k fd e c m) (c', m')
        (on_script_event-IsLive k fd e c m (started, h)) r).1
  Step-IsSound {c = c} h (terminates m) = terminate-IsSound k c m h

  -- Whatever the socket, the script, the file system and the clock do, and in whatever order the events
  -- come, every client that is registered, handles events and ends stays sound, from a sound one on: one
  -- that is not started holds no parser, no script, no bytes of a request and no response; a pending
  -- script is waited for; a script that may use the response builder is pending, and the builder is
  -- there; and there are bytes to send exactly while a response is ready.
  pub Reach-IsSound : {c d : Client} → IsSound c → Reach k c d → IsSound d
  Reach-IsSound h here = h
  Reach-IsSound h (next r s) = Step-IsSound (Reach-IsSound h r) s
