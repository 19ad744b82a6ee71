-- ===== src/Config/Blocks/Total.antt =====
-- The parser ends on every input, and what servers it gives.
use webserv_team.Base.{
  ℕ, zero, suc, ◌≤◌, Bool, List, [], ◌∷◌, ◌++◌, arith, Bytes, length, All, All-append,
}
use webserv_team.Config.{ServerConfig, new_server}
use webserv_team.Config.Outcome.{Outcome, returns, runtime_error, ◌>>>◌}
use webserv_team.Config.Tokens.{
  server_token, lbrace_token, rbrace_token, end_token, Token, is_kind, number_of,
}
use webserv_team.Config.Parser.{peek}
use webserv_team.Config.Parser.Total.{
  Ends, Post, gives, raises, Keeps, Post-weaken, Post-bind, Keeps-bind, Keeps-pure, Post-if,
}
use webserv_team.Config.Blocks.{
  server_loop, parse_server_block, parse_config_loop, parse_config, load_config,
}
use webserv_team.Config.Blocks.Locations.{Keeps-after, Keeps-next}
use webserv_team.Config.Blocks.Directives.{IsSaneServer, Keeps-parse_directive}
use webserv_team.Config.Tokens.Ends.{EndsTokens, tokenize-EndsTokens, ends, throws}

Post-server_loop :
    (valid_addr : Bytes → Bool) (fuel : ℕ) (server : ServerConfig)
    → IsSaneServer server
    → (ts : List Token) → Ends ts
    → length ts ≤ fuel
    → Post IsSaneServer 0 (length ts) (server_loop valid_addr fuel server ts)
unfolding server_loop peek
Post-server_loop valid_addr fuel server sane [] e h = elim e [ ]
Post-server_loop valid_addr zero server sane (t ∷ ts) e h = ground arith
Post-server_loop valid_addr (suc fuel) server sane (t ∷ ts) e h =
    let again : Post IsSaneServer 1 (suc (length ts)) _ =
      Post-bind (λ s. server_loop valid_addr fuel s)
        (Keeps-parse_directive valid_addr t.kind server sane (t ∷ ts) e)
        (λ s rest sane' e' h'. Post-server_loop valid_addr fuel s sane' rest e' (omega arith)) in
    Post-if _ _ (t ∷ ts) (is_kind rbrace_token t) (gives server (t ∷ ts) sane e (omega arith))
      (Post-weaken again (omega arith))

Keeps-parse_server_block :
    (valid_addr : Bytes → Bool) → Keeps 1 IsSaneServer (parse_server_block valid_addr)
unfolding parse_server_block number_of IsSaneServer
Keeps-parse_server_block valid_addr = Keeps-after server_token (omega arith) (λ _.
    Keeps-next lbrace_token (omega arith) (λ _.
      Keeps-bind {Q = IsSaneServer} {k = 0}
        (λ ts e.
          Post-server_loop valid_addr (length ts) new_server
            (omega arith, omega arith, tt, omega arith, tt) ts e (omega arith))
        (λ server sane. Keeps-next rbrace_token (omega arith) (λ _. Keeps-pure _ sane))))

Post-parse_config :
    (valid_addr : Bytes → Bool) (fuel : ℕ) (servers : List ServerConfig)
    → All IsSaneServer servers
    → (ts : List Token) → Ends ts
    → length ts ≤ fuel
    → Post (All IsSaneServer) 0 (length ts) (parse_config_loop valid_addr fuel servers ts)
unfolding parse_config_loop peek
Post-parse_config valid_addr fuel servers sane [] e h = elim e [ ]
Post-parse_config valid_addr zero servers sane (t ∷ ts) e h = ground arith
Post-parse_config valid_addr (suc fuel) servers sane (t ∷ ts) e h =
    let again : Post (All IsSaneServer) 1 (suc (length ts)) _ =
      Post-bind (λ s. parse_config_loop valid_addr fuel (servers ++ s ∷ []))
        (Keeps-parse_server_block valid_addr (t ∷ ts) e)
        (λ s rest sane' e' h'.
          Post-parse_config valid_addr fuel (servers ++ s ∷ [])
            (All-append IsSaneServer servers (s ∷ []) sane (sane', tt)) rest e' (omega arith)) in
    Post-if _ _ (t ∷ ts) (is_kind end_token t) (gives servers (t ∷ ts) sane e (omega arith))
      (Post-weaken again (omega arith))

-- What a configuration comes to: servers that are sane, or an exception.
pub data Loads : Outcome (List ServerConfig) → Type 0 where
  loads : (servers : List ServerConfig) → All IsSaneServer servers → Loads (returns servers)
  fails : Loads runtime_error

Loads-Post :
    {n : ℕ} {o : Outcome (List ServerConfig × List Token)}
    → Post (All IsSaneServer) 0 n o
    → Loads (o >>> λ r. returns r.0)
Loads-Post (gives servers rest sane e h) = loads servers sane
Loads-Post raises = fails

load_tokens :
    (valid_addr : Bytes → Bool) {o : Outcome (List Token)}
    → EndsTokens o
    → Loads (o >>> λ ts. parse_config valid_addr ts >>> λ r. returns r.0)
unfolding parse_config
load_tokens valid_addr (ends ts e) =
    Loads-Post (Post-parse_config valid_addr (length ts) [] tt ts e (omega arith))
load_tokens valid_addr throws = fails

-- Every configuration file is either refused with an exception or loaded, by a parser that ends and
-- that never reads a token behind `END`. In what is loaded every port fits 16 bits and every size 64,
-- the codes of the error pages are `short`s, every server has a name, and in every location a message
-- comes only from `return`, an address only from `redirect`, and a redirection is permanent exactly
-- if its code is 301.
pub load_config-Loads :
    (valid_addr : Bytes → Bool) (text : Bytes) → Loads (load_config valid_addr text)
unfolding load_config
load_config-Loads valid_addr text = load_tokens valid_addr (tokenize-EndsTokens text)
