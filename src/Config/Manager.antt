-- ===== src/Config/Manager.antt =====
-- `ConfigManager` of srcs/ParseConf/ConfigManager.cpp. The text of a file is an argument; a file that
-- cannot be opened has none.
use webserv_team.Base.{
  ℕ, Bool, true, false, ◌||◌, Option, none, some, List, [], ◌∷◌, ◌==◌, if◌then◌else◌, Bytes, ◌=ᵇ◌,
}
use webserv_team.Config.{ServerConfig}
use webserv_team.Config.Outcome.{Outcome, returns, runtime_error, out_of_range, no_fuel}
use webserv_team.Config.Blocks.{load_config}

pub record ConfigManager : Type 0 where
  pub servers : List ServerConfig
  pub check_open : Bool

-- `loadConfig`: what it returns, and the manager. The exceptions of the parser are caught.
unfoldable pub load_file :
    (Bytes → Bool) → Option Bytes → ConfigManager → Outcome (Bool × ConfigManager)
load_file valid_addr none c = returns (false, record c { check_open = false })
load_file valid_addr (some text) c =
    let opened = record c { check_open = true } in
    elim (load_config valid_addr text) [
      | returns servers ↦ returns (true, record opened { servers = servers })
      | runtime_error ↦ returns (false, opened)
      | out_of_range ↦ out_of_range
      | no_fuel ↦ no_fuel
    ]

unfoldable pub get_server_by_port : ℕ → List ServerConfig → Option ServerConfig
get_server_by_port port [] = none
get_server_by_port port (s ∷ servers) =
    if s.port == port then some s else get_server_by_port port servers

unfoldable pub has_name : Bytes → List Bytes → Bool
has_name name [] = false
has_name name (n ∷ names) = n =ᵇ name || has_name name names

unfoldable pub get_server_by_name : Bytes → List ServerConfig → Option ServerConfig
get_server_by_name name [] = none
get_server_by_name name (s ∷ servers) =
    if has_name name s.server_names then some s else get_server_by_name name servers

unfoldable pub set_servers : List ServerConfig → ConfigManager → ConfigManager
set_servers servers c = record c { servers = servers }
