-- ===== src/Logger.antt =====
-- srcs/Server/Logger.cpp. What is written is a list of lines with where they go; the time stamp is an
-- argument, and so is whether a file can be opened.
use webserv_team.Base.{
  ℕ, Bool, true, false, Option, none, some, List, [], ◌∷◌, ◌++◌, String, ltb, if◌then◌else◌, Bytes,
  codes,
}

pub data LogLevel : Type 0 where
  debug info servers client request response warning error fatal : LogLevel

-- The number of a level in the `enum`.
unfoldable pub level_number : LogLevel → ℕ
level_number debug = 0
level_number info = 1
level_number servers = 2
level_number client = 3
level_number request = 4
level_number response = 5
level_number warning = 6
level_number error = 7
level_number fatal = 8

unfoldable pub get_level_string : LogLevel → Bytes
get_level_string debug = codes "DEBUG"
get_level_string info = codes "INFO"
get_level_string servers = codes "SERVER"
get_level_string client = codes "CLIENT"
get_level_string request = codes "REQUEST"
get_level_string response = codes "RESPONSE"
get_level_string warning = codes "WARNING"
get_level_string error = codes "ERROR"
get_level_string fatal = codes "FATAL"

pub record Logger : Type 0 where
  pub level : LogLevel
  pub to_console : Bool
  pub to_file : Bool
  pub log_file : Option Bytes

-- Where a line is written; the line break at its end is left out.
pub data Written : Type 0 where
  on_stdout on_stderr : Bytes → Written
  in_file : Bytes → Bytes → Written

abbrev pub new_logger : Logger
new_logger = record { level = info; to_console = true; to_file = false; log_file = none }

unfoldable pub set_level : LogLevel → Logger → Logger
set_level level l = record l { level = level }

unfoldable pub set_output : Bool → Bool → Logger → Logger
set_output to_console to_file l = record l { to_console = to_console; to_file = to_file }

abbrev escape : String → Bytes
escape s = 27 ∷ codes s

abbrev reset : Bytes
reset = escape "[0m"

-- The stream and the colour of a level.
unfoldable pub on_console : LogLevel → Bytes → Written
on_console error text = on_stderr (escape "[1;31m" ++ (text ++ reset))
on_console servers text = on_stdout (escape "[1;37m" ++ (escape "[4m" ++ (text ++ reset)))
on_console client text = on_stdout (escape "[1;33m" ++ (text ++ reset))
on_console request text = on_stdout (escape "[34m" ++ (text ++ reset))
on_console response text = on_stdout (escape "[1;34m" ++ (text ++ reset))
on_console info text = on_stdout (escape "[35m" ++ (text ++ reset))
on_console _ text = on_stdout text

unfoldable pub log_message : Bytes → LogLevel → Bytes → Bytes
log_message timestamp level message =
    codes "[" ++ timestamp ++ codes "] [" ++ get_level_string level ++ codes "] " ++ message

unfoldable pub to_log_file : Logger → Bytes → List Written
to_log_file l text = elim l.log_file [
  | none ↦ []
  | some path ↦ if l.to_file then in_file path text ∷ [] else []
]

-- `log`; the other calls are `log` at their level.
unfoldable pub log : Bytes → LogLevel → Bytes → Logger → List Written
log timestamp level message l =
    let text = log_message timestamp level message in
    let shown : List Written = if l.to_console then on_console level text ∷ [] else [] in
    if ltb (level_number level) (level_number l.level) then [] else shown ++ to_log_file l text

-- `setLogFile`, with what it logs where the file cannot be opened.
unfoldable pub set_log_file : Bytes → Bool → Bytes → Logger → Logger × List Written
set_log_file path can_open timestamp l =
    let closed = record l { log_file = none } in
    if can_open then (record l { log_file = some path; to_file = true }, []) else (
      record closed { to_file = false },
      log timestamp error (codes "Failed to open log file: " ++ path) closed,
    )
