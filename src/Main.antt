-- ===== src/Main.antt =====
-- srcs/main.cpp, from the arguments to the event loop. The text of the configuration file, what the
-- clients do and the batches of `epoll_wait` are arguments; the log and the calls of `signal` are left out.
use webserv_team.Base.{
  ℕ, Bool, true, false, Option, none, some, List, [], ◌∷◌, if◌then◌else◌, Bytes, codes,
}
use webserv_team.Config.{ServerConfig}
use webserv_team.Config.Outcome.{returns, runtime_error, out_of_range, no_fuel}
use webserv_team.Config.Manager.{load_file}
use webserv_team.Kernel.{Events, Kernel}
use webserv_team.Multiplexer.{Machine, LoopState, run_event_loop, set_started}
use webserv_team.Server.Sockets.{new_server_of, start_server}
use webserv_team.Server.Peers.{WebServer, dispatch_event}

-- How the program ends, or how far it is.
pub data Progress (W : Type 0) : Type 0 where
  usage cannot_open no_listeners broken : Progress W
  loops : LoopState (WebServer W) → Progress W

abbrev pub default_conf : Bytes
default_conf = codes "config/webserv.conf"

-- The configuration file of the arguments behind the program's name.
unfoldable pub config_file : List Bytes → Option Bytes
config_file [] = some default_conf
config_file (file ∷ []) = some file
config_file (file ∷ (other ∷ files)) = none

-- The server is started on what the manager has, whether or not the file could be parsed.
unfoldable pub serve :
    {W : Type 0}
    → Kernel W
    → ℕ
    → List (Option (List (ℕ × Events)))
    → List ServerConfig
    → Machine W
    → Progress W
serve k fuel batches servers m =
    let (s, m') = start_server k (new_server_of servers) m in
    elim (run_event_loop (λ p. p.machine) (λ p. record p { machine = set_started true p.machine })
      (dispatch_event k fuel) batches (record { server = s; machine = m'; is_alive = true })) [
        | none ↦ no_listeners
        | some state ↦ loops state
      ]

unfoldable pub main :
    {W : Type 0}
    → Kernel W
    → (Bytes → Bool)
    → (Bytes → Option Bytes)
    → ℕ
    → List (Option (List (ℕ × Events)))
    → List Bytes
    → Machine W
    → Progress W
main k valid_addr text_of fuel batches arguments m = elim (config_file arguments) [
  | none ↦ usage
  | some file ↦
      elim (load_file valid_addr (text_of file) (record { servers = []; check_open = false })) [
        | returns (loaded, c) ↦
            if c.check_open then serve k fuel batches c.servers m else cannot_open
        | runtime_error ↦ broken
        | out_of_range ↦ broken
        | no_fuel ↦ broken
      ]
]
