-- ===== src/Server.antt =====
-- The groups of servers by address in `StartServer` of srcs/Server/Server.cpp; the children hold the
-- sockets and the clients.
pub mod Groups
pub mod Sockets
pub mod Peers
use webserv_team.Base.{
  ℕ, zero, suc, ◌+◌, ◌-◌, ◌*◌, ◌/◌, ◌%◌, ◌^◌, ◌≤◌, ◌<◌, min, ◌≡◌, refl, sym, ap, ◌∙◌, ◌≢◌, ◌↔◌, ◌⊎◌,
  inl, inr, Bool, true, false, not, ◌&&◌, ◌||◌, Option, none, some, List, [], ◌∷◌, ◌++◌, map,
  String, arith, ltb, leb, ◌==◌, if◌then◌else◌, ==_iff, Bool-cases, Option-cases, Bytes, codes,
  length, is_empty, take, drop, length-append, length-take, length-drop, take-append-drop,
  take-append, drop-append, take-append_long, drop-append_long, take_all, drop_all, take-min,
  drop-min, All, All-append, ◌=ᵇ◌, =ᵇ_iff, =ᵇ_self, has_byte, cut, cut-append, starts_with, find,
  ends_in, starts_in,
}
use webserv_team.Dict.{less}
use webserv_team.Config.{ServerConfig}
use webserv_team.Response.{to_string}

abbrev pub Groups : Type 0
Groups = List (Bytes × List ServerConfig)

-- The key of the address that a server listens on.
unfoldable pub address_key : ServerConfig → Bytes
address_key server = server.host ++ codes ":" ++ to_string server.port

-- The servers of a key; no key stands for no server.
unfoldable pub find_group : Bytes → Groups → List ServerConfig
find_group k [] = []
find_group k ((j, servers) ∷ groups) = if j =ᵇ k then servers else find_group k groups

unfoldable pub is_grouped : Bytes → Groups → Bool
is_grouped k [] = false
is_grouped k ((j, servers) ∷ groups) = j =ᵇ k || is_grouped k groups

-- A server behind those of its key.
unfoldable pub extend_group : Bytes → ServerConfig → Groups → Groups
extend_group k s [] = []
extend_group k s ((j, servers) ∷ groups) =
    if j =ᵇ k then (j, servers ++ s ∷ []) ∷ groups else (j, servers) ∷ extend_group k s groups

-- A new key, in the order of the keys.
unfoldable pub place_group : Bytes → ServerConfig → Groups → Groups
place_group k s [] = (k, s ∷ []) ∷ []
place_group k s ((j, servers) ∷ groups) =
    if less k j then (k, s ∷ []) ∷ (j, servers) ∷ groups else (j, servers) ∷ place_group k s groups

-- `addressGroups[key].push_back(&server)`.
unfoldable pub add_server : ServerConfig → Groups → Groups
add_server s groups =
    if is_grouped (address_key s) groups
    then extend_group (address_key s) s groups
    else place_group (address_key s) s groups

unfoldable pub group_servers : List ServerConfig → Groups → Groups
group_servers [] groups = groups
group_servers (s ∷ servers) groups = group_servers servers (add_server s groups)
