-- ===== src/Server/Peers.antt =====
-- `accept_peer` and `onEvent` of srcs/Server/Server.cpp, and the events of all listeners together.
pub mod Batch
pub mod Pool
use webserv_team.Base.{
  ℕ, zero, suc, ◌+◌, ◌-◌, ◌*◌, ◌/◌, ◌%◌, ◌^◌, ◌≤◌, ◌<◌, min, ◌≡◌, refl, sym, ap, ◌∙◌, ◌≢◌, ◌↔◌, ◌⊎◌,
  inl, inr, Bool, true, false, not, ◌&&◌, ◌||◌, Option, none, some, List, [], ◌∷◌, ◌++◌, map,
  String, arith, ltb, leb, ◌==◌, if◌then◌else◌, ==_iff, Bool-cases, Option-cases, Bytes, codes,
  length, is_empty, take, drop, length-append, length-take, length-drop, take-append-drop,
  take-append, drop-append, take-append_long, drop-append_long, take_all, drop_all, take-min,
  drop-min, All, All-append, ◌=ᵇ◌, =ᵇ_iff, =ᵇ_self, has_byte, cut, cut-append, starts_with, find,
  ends_in, starts_in,
}
use webserv_team.Config.{ServerConfig}
use webserv_team.Kernel.{Events, Kernel}
use webserv_team.Multiplexer.{
  Failure, Listener, the_server, client_at, script_of, Machine, run_events,
}
use webserv_team.Client.{
  Reaction, reacts, crashes, hangs, Client, new_client, register_with_io_multiplexer,
  set_peer_socket_fd, set_server_socket_fd,
}
use webserv_team.Client.Sending.{on_event}
use webserv_team.Client.Script.{on_script_event}
use webserv_team.Server.Sockets.{Server, configs_of}

-- The first client that is not started gets the socket; if there is none, a new one does. `place` is
-- the place of the first client of the list.
unfoldable pub place_peer :
    {W : Type 0}
    → Kernel W
    → ℕ
    → ℕ
    → List ServerConfig
    → ℕ
    → List Client
    → Machine W
    → List Client × Machine W
place_peer k fd client_fd configs place [] m =
    let (c, m') =
      register_with_io_multiplexer k (new_client place fd client_fd configs (k.now m.world)) m in
    (c ∷ [], m')
place_peer k fd client_fd configs place (c ∷ cs) m =
    let (cs', m') = place_peer k fd client_fd configs (suc place) cs m in
    let (reused, m'') =
      register_with_io_multiplexer k (set_server_socket_fd fd (set_peer_socket_fd client_fd c)) m in
    if c.is_started then (c ∷ cs', m') else (reused ∷ cs, m'')

-- `accept_peer`.
unfoldable pub accept_peer : {W : Type 0} → Kernel W → ℕ → Server → Machine W → Server × Machine W
accept_peer k fd s m =
    let (peer, w) = k.accept fd m.world in
    let m' = record m { world = w } in
    elim peer [
      | none ↦ (s, m')
      | some client_fd ↦
          let (cs, m'') =
            place_peer k fd client_fd (configs_of fd s.socket_configs) 0 s.clients m' in
          (record s { clients = cs }, m'')
    ]

unfoldable pub is_in : ℕ → List ℕ → Bool
is_in n [] = false
is_in n (x ∷ xs) = x == n || is_in n xs

-- `Server::onEvent`.
unfoldable pub on_server_event :
    {W : Type 0} → Kernel W → ℕ → Server → Machine W → Server × Machine W
on_server_event k fd s m = if is_in fd s.listen_fds then accept_peer k fd s m else (s, m)

unfoldable pub client_of : ℕ → List Client → Option Client
client_of place [] = none
client_of zero (c ∷ cs) = some c
client_of (suc place) (c ∷ cs) = client_of place cs

unfoldable pub set_client : ℕ → Client → List Client → List Client
set_client place c' [] = []
set_client zero c' (c ∷ cs) = c' ∷ cs
set_client (suc place) c' (c ∷ cs) = c ∷ set_client place c' cs

-- The whole program: the server with its clients, and the multiplexer; `is_alive` is false once a
-- handler has crashed or hangs, and nothing happens from then on.
pub record WebServer (W : Type 0) : Type 0 where
  pub server : Server
  pub machine : Machine W
  pub is_alive : Bool

-- What the event of a client leaves of the program.
unfoldable pub after_client :
    {W : Type 0} → ℕ → Reaction (Client × Machine W) → WebServer W → WebServer W
after_client place (reacts (c, m)) p = record p {
  server = record p.server { clients = set_client place c p.server.clients };
  machine = m;
}
after_client place crashes p = record p { is_alive = false }
after_client place hangs p = record p { is_alive = false }

-- `it->second->onEvent(...)`.
unfoldable pub dispatch_event :
    {W : Type 0} → Kernel W → ℕ → Listener → ℕ → Events → WebServer W → WebServer W
dispatch_event k fuel the_server fd e p =
    let (s, m) = on_server_event k fd p.server p.machine in
    if p.is_alive then record p { server = s; machine = m } else p
dispatch_event k fuel (client_at i) fd e p = elim (client_of i p.server.clients) [
  | none ↦ p
  | some c ↦ if p.is_alive then after_client i (on_event k fuel e c p.machine) p else p
]
dispatch_event k fuel (script_of i) fd e p = elim (client_of i p.server.clients) [
  | none ↦ p
  | some c ↦ if p.is_alive then after_client i (on_script_event k fd e c p.machine) p else p
]
