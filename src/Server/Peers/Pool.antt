-- ===== src/Server/Peers/Pool.antt =====
-- Which client gets the socket of a new peer.
use mathlib.Core.Path.{subst}
use webserv_team.Base.{
  ℕ, zero, suc, ◌≡◌, refl, sym, ap, ◌⊎◌, inl, inr, true, false, Option, none, some, List, [], ◌∷◌,
  arith, Bool-cases,
}
use webserv_team.Config.{ServerConfig}
use webserv_team.Kernel.{Kernel}
use webserv_team.Multiplexer.{Machine}
use webserv_team.Client.{
  Client, new_client, register_with_io_multiplexer, set_peer_socket_fd, set_server_socket_fd,
}
use webserv_team.Server.Sockets.{Server, configs_of}
use webserv_team.Server.Peers.{place_peer, accept_peer, client_of}

-- `c` has the socket: as a new client, with the configuration of the listening socket, or in place of
-- a client that was not connected, with the configuration that this one had.
abbrev pub IsPeer : ℕ → ℕ → List ServerConfig → Option Client → Client → Type 0
IsPeer fd client_fd configs none c =
    (c.peer_socket_fd ≡ client_fd) × ((c.server_socket_fd ≡ fd) × (c.server_configs ≡ configs))
IsPeer fd client_fd configs (some old) c =
    (old.is_started ≡ false)
    × ((c.peer_socket_fd ≡ client_fd)
        × ((c.server_socket_fd ≡ fd) × (c.server_configs ≡ old.server_configs)))

-- The clients `cs'` are the clients `cs` but for one, which has the socket.
abbrev pub IsPlaced : ℕ → ℕ → List ServerConfig → List Client → List Client → Type 0
IsPlaced fd client_fd configs cs cs' =
    (j : ℕ) × ((c : Client) × ((client_of j cs' ≡ some c)
        × (IsPeer fd client_fd configs (client_of j cs) c
            × ((i : ℕ) → (i ≡ j) ⊎ (client_of i cs' ≡ client_of i cs)))))

register_keeps :
    {W : Type 0} (k : Kernel W) (c : Client) (m : Machine W)
    → ((register_with_io_multiplexer k c m).0.peer_socket_fd ≡ c.peer_socket_fd)
      × (((register_with_io_multiplexer k c m).0.server_socket_fd ≡ c.server_socket_fd)
          × ((register_with_io_multiplexer k c m).0.server_configs ≡ c.server_configs))
unfolding register_with_io_multiplexer
register_keeps k c m = ground arith

new_first : (c : Client) (i : ℕ) → (i ≡ 0) ⊎ (client_of i (c ∷ []) ≡ client_of i [])
unfolding client_of
new_first c zero = inl refl
new_first c (suc i) = inr refl

other_first :
    (c d : Client) (cs : List Client) (i : ℕ)
    → (i ≡ 0) ⊎ (client_of i (d ∷ cs) ≡ client_of i (c ∷ cs))
unfolding client_of
other_first c d cs zero = inl refl
other_first c d cs (suc i) = inr refl

shifted :
    (c : Client) (cs cs' : List Client) (j : ℕ)
    → ((i : ℕ) → (i ≡ j) ⊎ (client_of i cs' ≡ client_of i cs))
    → (i : ℕ) → (i ≡ suc j) ⊎ (client_of i (c ∷ cs') ≡ client_of i (c ∷ cs))
unfolding client_of
shifted c cs cs' j others zero = inr refl
shifted c cs cs' j others (suc i) = elim (others i) [ inl e ↦ inl (ap suc e) | inr e ↦ inr e ]

behind-IsPlaced :
    (fd client_fd : ℕ) (configs : List ServerConfig) (c : Client) (cs cs' : List Client)
    → IsPlaced fd client_fd configs cs cs'
    → IsPlaced fd client_fd configs (c ∷ cs) (c ∷ cs')
unfolding client_of
behind-IsPlaced fd client_fd configs c cs cs' (j, (d, (at, (peer, others)))) =
    (suc j, (d, (at, (peer, shifted c cs cs' j others))))

-- Both cases of the loop.
place_connected :
    {W : Type 0} (k : Kernel W) (fd client_fd : ℕ) (configs : List ServerConfig) (place : ℕ)
    (c : Client) (cs : List Client) (m : Machine W)
    → c.is_started ≡ true
    → (place_peer k fd client_fd configs place (c ∷ cs) m).0
      ≡ c ∷ (place_peer k fd client_fd configs (suc place) cs m).0
unfolding place_peer
place_connected k fd client_fd configs place c cs m connected = ground arith

place_idle :
    {W : Type 0} (k : Kernel W) (fd client_fd : ℕ) (configs : List ServerConfig) (place : ℕ)
    (c : Client) (cs : List Client) (m : Machine W)
    → c.is_started ≡ false
    → (place_peer k fd client_fd configs place (c ∷ cs) m).0
      ≡ (register_with_io_multiplexer k
          (set_server_socket_fd fd (set_peer_socket_fd client_fd c))
          m).0
        ∷ cs
unfolding place_peer
place_idle k fd client_fd configs place c cs m idle = ground arith

accept_peer_places :
    {W : Type 0} (k : Kernel W) (fd client_fd : ℕ) (s : Server) (m : Machine W)
    → (k.accept fd m.world).0 ≡ some client_fd
    → (accept_peer k fd s m).0.clients
      ≡ (place_peer k fd client_fd
          (configs_of fd s.socket_configs)
          0
          s.clients
          (record m { world = (k.accept fd m.world).1 })).0
unfolding accept_peer
accept_peer_places k fd client_fd s m accepted = ground arith

place_peer-IsPlaced :
    {W : Type 0} (k : Kernel W) (fd client_fd : ℕ) (configs : List ServerConfig) (place : ℕ)
    (cs : List Client) (m : Machine W)
    → IsPlaced fd client_fd configs cs (place_peer k fd client_fd configs place cs m).0
unfolding place_peer client_of new_client set_server_socket_fd set_peer_socket_fd
place_peer-IsPlaced k fd client_fd configs place [] m =
    (0, (_, (refl, (register_keeps k _ m, new_first _))))
place_peer-IsPlaced k fd client_fd configs place (c ∷ cs) m = elim (Bool-cases c.is_started) [
  | inl connected ↦
      let behind =
        behind-IsPlaced fd client_fd configs c cs _
          (place_peer-IsPlaced k fd client_fd configs (suc place) cs m) in
      subst (IsPlaced fd client_fd configs (c ∷ cs))
        (sym (place_connected k fd client_fd configs place c cs m connected)) behind
  | inr idle ↦
      let c' = set_server_socket_fd fd (set_peer_socket_fd client_fd c) in
      let d = (register_with_io_multiplexer k c' m).0 in
      let placed : IsPlaced fd client_fd configs (c ∷ cs) (d ∷ cs) =
        (0, (d, (refl, ((idle, register_keeps k c' m), other_first c d cs)))) in
      subst (IsPlaced fd client_fd configs (c ∷ cs))
        (sym (place_idle k fd client_fd configs place c cs m idle)) placed
]

-- A peer that is accepted gets exactly one client: a new one with the servers of the listening socket,
-- or one that was not connected, which keeps the servers of the socket that it was made for. All other
-- clients stay as they are, the connected ones among them.
pub accept_peer-IsPlaced :
    {W : Type 0} (k : Kernel W) (fd client_fd : ℕ) (s : Server) (m : Machine W)
    → (k.accept fd m.world).0 ≡ some client_fd
    → IsPlaced fd client_fd
        (configs_of fd s.socket_configs)
        s.clients
        (accept_peer k fd s m).0.clients
unfolding accept_peer
accept_peer-IsPlaced k fd client_fd s m accepted =
    let placed =
      place_peer-IsPlaced k fd client_fd (configs_of fd s.socket_configs) 0 s.clients
        (record m { world = (k.accept fd m.world).1 }) in
    subst (IsPlaced fd client_fd (configs_of fd s.socket_configs) s.clients)
      (sym (accept_peer_places k fd client_fd s m accepted)) placed
