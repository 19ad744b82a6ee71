-- ===== src/Server/Sockets.antt =====
-- The state of includes/Server.hpp and the sockets that the server listens on, in
-- srcs/Server/Server.cpp. What is logged is left out.
use webserv_team.Base.{
  ℕ, ◌+◌, ◌*◌, ◌/◌, ◌%◌, Bool, true, false, not, Option, none, some, List, [], ◌∷◌, ◌++◌, ◌==◌,
  if◌then◌else◌, codes, ◌=ᵇ◌,
}
use webserv_team.Config.{ServerConfig}
use webserv_team.Kernel.{Address, Kernel}
use webserv_team.Multiplexer.{the_server, Machine, add_listener, remove_listener, close_fd}
use webserv_team.Cgi.Process.{readable}
use webserv_team.Client.{Client, terminate}
use webserv_team.Server.{Groups, group_servers}

-- `Server`. The clients stand at their places.
pub record Server : Type 0 where
  pub config : List ServerConfig
  pub is_started : Bool
  pub listen_fds : List ℕ
  pub clients : List Client
  pub socket_configs : List (ℕ × List ServerConfig)

unfoldable pub new_server_of : List ServerConfig → Server
new_server_of config = record {
  config = config;
  is_started = false;
  listen_fds = [];
  clients = [];
  socket_configs = [];
}

-- `htons` on a machine whose numbers begin with their low byte.
unfoldable pub htons : ℕ → ℕ
htons port = (port % 256) * 256 + (port / 256) % 256

-- `getListenAddress`; the exception is `none`. `INADDR_LOOPBACK` is 0x7f000001, in host order.
unfoldable pub get_listen_address : {W : Type 0} → Kernel W → ServerConfig → Option Address
get_listen_address k conf =
    if conf.host =ᵇ codes "0.0.0.0"
    then some (record { s_addr = 0; port = htons conf.port })
    else if conf.host =ᵇ codes "127.0.0.1"
    then some (record { s_addr = 2130706433; port = htons conf.port })
    else elim (k.inet_pton conf.host) [
      | none ↦ none
      | some n ↦ some (record { s_addr = n; port = htons conf.port })
    ]

-- `_socket_configs[fd] = configs`.
unfoldable pub set_configs :
    ℕ → List ServerConfig → List (ℕ × List ServerConfig) → List (ℕ × List ServerConfig)
set_configs fd configs [] = (fd, configs) ∷ []
set_configs fd configs ((j, old) ∷ table) =
    if j == fd then (fd, configs) ∷ table else (j, old) ∷ set_configs fd configs table

unfoldable pub configs_of : ℕ → List (ℕ × List ServerConfig) → List ServerConfig
configs_of fd [] = []
configs_of fd ((j, configs) ∷ table) = if j == fd then configs else configs_of fd table

-- The calls on the socket in the order of `listenOnAddr`, each only if those in front succeed.
unfoldable pub open_socket : {W : Type 0} → Kernel W → ℕ → Address → W → Bool × W
open_socket k fd a w =
    let (reused, w1) = k.reuse_address fd w in
    let (bound, w2) = k.bind fd a w1 in
    let (listening, w3) = k.listen fd w2 in
    if not reused then (false, w1) else if not bound then (false, w2) else (listening, w3)

-- `listenOnAddr`: a socket that could not be set up or registered is closed, but its configuration
-- stays. The exceptions are `false`.
unfoldable pub listen_on_addr :
    {W : Type 0}
    → Kernel W
    → Address
    → List ServerConfig
    → Server
    → Machine W
    → Bool × (Server × Machine W)
listen_on_addr k a configs s m =
    let (socket, w) = k.socket m.world in
    elim socket [
      | none ↦ (false, (s, record m { world = w }))
      | some fd ↦
          let s' = record s { socket_configs = set_configs fd configs s.socket_configs } in
          let (ready, w') = open_socket k fd a w in
          let m' = record m { world = w' } in
          let (failure, m'') = add_listener k the_server fd readable m' in
          if not ready then (false, (s', close_fd k fd m')) else elim failure [
            | some _ ↦ (false, (s', close_fd k fd m''))
            | none ↦ (true, (record s' { listen_fds = s'.listen_fds ++ fd ∷ [] }, m''))
          ]
    ]

-- One round of the second loop of `StartServer`; its exception is caught.
unfoldable pub listen_on_group :
    {W : Type 0} → Kernel W → List ServerConfig → Server → Machine W → Server × Machine W
listen_on_group k [] s m = (s, m)
listen_on_group k (first ∷ others) s m = elim (get_listen_address k first) [
  | none ↦ (s, m)
  | some a ↦ (listen_on_addr k a (first ∷ others) s m).1
]

unfoldable pub listen_on_groups :
    {W : Type 0} → Kernel W → Groups → Server → Machine W → Server × Machine W
listen_on_groups k [] s m = (s, m)
listen_on_groups k ((key, servers) ∷ groups) s m =
    let (s', m') = listen_on_group k servers s m in listen_on_groups k groups s' m'

unfoldable pub start_server : {W : Type 0} → Kernel W → Server → Machine W → Server × Machine W
start_server k s m =
    listen_on_groups k (group_servers s.config []) (record s { is_started = true }) m

-- The loop over `_listen_fds` in `terminate`; an exception of `removeListener`, which nothing in
-- `terminate` catches, ends it.
unfoldable pub close_sockets : {W : Type 0} → Kernel W → List ℕ → Machine W → Bool × Machine W
close_sockets k [] m = (true, m)
close_sockets k (fd ∷ fds) m =
    let (failure, m') = remove_listener k readable fd m in
    elim failure [ some _ ↦ (false, m') | none ↦ close_sockets k fds (close_fd k fd m') ]

unfoldable pub terminate_clients :
    {W : Type 0} → Kernel W → List Client → Machine W → List Client × Machine W
terminate_clients k [] m = ([], m)
terminate_clients k (c ∷ cs) m =
    let (c', m') = terminate k c m in let (cs', m'') = terminate_clients k cs m' in (c' ∷ cs', m'')

-- `Server::terminate`; whether it returns without an exception.
unfoldable pub terminate_server :
    {W : Type 0} → Kernel W → Server → Machine W → Bool × (Server × Machine W)
terminate_server k s m =
    let s' = record s { is_started = false } in
    let (closed, m') = close_sockets k s.listen_fds m in
    let (cs, m'') = terminate_clients k s.clients m' in
    if not s.is_started
    then (true, (s, m))
    else if not closed
    then (false, (s', m'))
    else (true, (record s' { clients = cs }, m''))
