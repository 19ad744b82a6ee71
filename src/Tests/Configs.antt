-- ===== src/Tests/Configs.antt =====
-- Runs of the parser of configurations.
use webserv_team.Base.{◌≡◌, refl, Bool, true, false, Bytes, codes}
use webserv_team.Config.Outcome.{returns}
use webserv_team.Config.Tokens.{tokenize, sanitize_input}
use webserv_team.Config.Tokens.Apart.{are_apart, sanitize_input-apart}
use webserv_team.Config.Tokens.Ends.{EndsTokens, tokenize-EndsTokens}
use webserv_team.Config.Parser.{parse_size, listen_directive}
use webserv_team.Config.Blocks.{load_config}
use webserv_team.Config.Blocks.Total.{Loads, load_config-Loads}

abbrev small_config : Bytes
small_config = codes "server { listen 8080; location / { root www; } }"

tokenize-EndsTokens_example : EndsTokens (tokenize small_config)
tokenize-EndsTokens_example = tokenize-EndsTokens small_config

sanitize_input-apart_example : are_apart b' ' (sanitize_input false (codes "a{b;}")) ≡ true
sanitize_input-apart_example = sanitize_input-apart false b' ' (codes "a{b;}")

abbrev any_address : Bytes → Bool
any_address a = true

load_config-Loads_example : Loads (load_config any_address small_config)
load_config-Loads_example = load_config-Loads any_address small_config

-- A unit in upper case that is a word of its own counts for nothing.
parse_size-upper : parse_size (codes "10") b'M' ≡ returns 10
unfolding parse_size
parse_size-upper = refl

-- A port that does not fit is taken for the greatest one.
listen_directive-large :
    listen_directive any_address (codes "70000") ≡ returns (codes "0.0.0.0", 65535)
unfolding listen_directive
listen_directive-large = refl
