-- ===== src/Config/Blocks.antt =====
-- The blocks and the directives of a location in srcs/ParseConf/Parser.cpp, and `loadConfig` of
-- srcs/ParseConf/ConfigManager.cpp on the text of the file. Each loop has the number of the tokens
-- as fuel.
pub mod Locations
pub mod Directives
pub mod Total
use webserv_team.Base.{
  ℕ, zero, suc, ◌+◌, ◌-◌, ◌*◌, ◌/◌, ◌%◌, ◌^◌, ◌≤◌, ◌<◌, min, ◌≡◌, refl, sym, ap, ◌∙◌, ◌≢◌, ◌↔◌, ◌⊎◌,
  inl, inr, Bool, true, false, not, ◌&&◌, ◌||◌, Option, none, some, List, [], ◌∷◌, ◌++◌, map,
  String, arith, ltb, leb, ◌==◌, if◌then◌else◌, ==_iff, Bool-cases, Option-cases, Bytes, codes,
  length, is_empty, take, drop, length-append, length-take, length-drop, take-append-drop,
  take-append, drop-append, take-append_long, drop-append_long, take_all, drop_all, take-min,
  drop-min, All, All-append, ◌=ᵇ◌, =ᵇ_iff, =ᵇ_self, has_byte, cut, cut-append, starts_with, find,
  ends_in, starts_in,
}
use webserv_team.Config.{Location, new_location, ServerConfig, new_server}
use webserv_team.Config.Outcome.{Outcome, returns, runtime_error, out_of_range, no_fuel, ◌>>>◌}
use webserv_team.Config.Tokens.{
  TokenType, server_token, listen_token, server_name_token, root_token, error_page_token,
  location_token, lbrace_token, rbrace_token, semicolon_token, number_token, string_token,
  end_token, autoindex_token, index_token, client_max_body_size_token,
  client_max_body_size_mul_token, allowed_methods_token, redirect_token, return_token, cgi_token,
  cgi_path_token, upload_store_token, Token, is_kind, tokenize,
}
use webserv_team.Config.Parser.{
  Reader, ◌>>=◌, ◌>>◌, pure, throw, peek, consume, consume_all, atoi, parse_listen_directive,
  parse_server_name_directive, parse_error_page_directive, parse_client_max_body_size_directive,
}

-- The optional code in front of the address of a redirection.
unfoldable pub redirect_code_directive : Location → Reader Location
unfolding peek consume atoi
redirect_code_directive l = do
  t ← peek
  if is_kind number_token t
      then (consume number_token >>= λ code. pure (record l {
        is_redirect_permanent = atoi code.value == 301;
        redirect_code = atoi code.value;
      }))
      else pure (record l { is_redirect_permanent = false; redirect_code = 302 })

unfoldable pub parse_redirect_directive : Location → Reader Location
unfolding redirect_code_directive consume
parse_redirect_directive l = do
  consume redirect_token
  l' ← redirect_code_directive l
  url ← consume string_token
  consume semicolon_token
  pure (record l' { is_redirect = true; redirect_url = url.value })

unfoldable pub parse_upload_store_directive : Location → Reader Location
unfolding consume
parse_upload_store_directive l = do
  consume upload_store_token
  path ← consume string_token
  consume semicolon_token
  pure (record l { upload_store = path.value })

unfoldable pub cgi_paths_loop : ℕ → Location → Reader Location
unfolding peek consume
cgi_paths_loop zero l = λ ts. no_fuel
cgi_paths_loop (suc fuel) l = do
  t ← peek
  let again = (do
    consume cgi_path_token
    path ← consume string_token
    consume semicolon_token
    cgi_paths_loop fuel (record l { cgi_path = path.value }))
  if is_kind cgi_path_token t then again else pure l

unfoldable pub cgi_switch : Location → Reader Location
unfolding consume
cgi_switch l = do
  value ← consume string_token
  if value.value =ᵇ codes "on"
      then pure (record l { use_cgi = true })
      else if value.value =ᵇ codes "off"
      then pure (record l { use_cgi = false })
      else throw

-- What is no word behind `cgi` is an error that `consume` raises.
unfoldable pub parse_cgi_directive : Location → Reader Location
unfolding consume cgi_switch cgi_paths_loop
parse_cgi_directive l = do
  consume cgi_token
  l' ← cgi_switch l
  consume semicolon_token
  λ ts. cgi_paths_loop (length ts) l' ts

-- The words of a message with a blank between them. An empty message takes no blank.
unfoldable pub join_message : Bytes → List Bytes → Bytes
join_message message [] = message
join_message message (w ∷ ws) =
    join_message (if is_empty message then w else message ++ b' ' ∷ w) ws

unfoldable pub parse_return_directive : Location → Reader Location
unfolding consume consume_all atoi join_message
parse_return_directive l = do
  consume return_token
  code ← consume number_token
  message ← consume_all string_token
  consume semicolon_token
  pure (record l {
    has_return = true;
    return_code = atoi code.value;
    return_message = join_message l.return_message message;
  })

-- The directives that `parseLocationBlock` reads itself.
unfoldable pub parse_root : Location → Reader Location
unfolding consume
parse_root l = do
  consume root_token
  path ← consume string_token
  consume semicolon_token
  pure (record l { root = path.value })

unfoldable pub skip_error_page : Location → Reader Location
unfolding consume
skip_error_page l = do
  consume error_page_token
  consume number_token
  consume string_token
  consume semicolon_token
  pure l

unfoldable pub parse_autoindex : Location → Reader Location
unfolding consume
parse_autoindex l = do
  consume autoindex_token
  value ← consume string_token
  consume semicolon_token
  pure (record l { autoindex = value.value =ᵇ codes "on" })

unfoldable pub parse_index : Location → Reader Location
unfolding consume
parse_index l = do
  consume index_token
  value ← consume string_token
  consume semicolon_token
  pure (record l { index = value.value })

unfoldable pub parse_allowed_methods : Location → Reader Location
unfolding consume consume_all
parse_allowed_methods l = do
  consume allowed_methods_token
  methods ← consume_all string_token
  consume semicolon_token
  pure (record l { allowed_methods = methods })

-- One round of the loop in `parseLocationBlock`, by the kind of the token.
unfoldable pub location_directive : TokenType → Location → Reader Location
unfolding parse_root skip_error_page parse_autoindex parse_index parse_allowed_methods
    parse_redirect_directive parse_cgi_directive parse_upload_store_directive parse_return_directive
location_directive root_token l = parse_root l
location_directive error_page_token l = skip_error_page l
location_directive autoindex_token l = parse_autoindex l
location_directive index_token l = parse_index l
location_directive allowed_methods_token l = parse_allowed_methods l
location_directive redirect_token l = parse_redirect_directive l
location_directive cgi_token l = parse_cgi_directive l
location_directive upload_store_token l = parse_upload_store_directive l
location_directive return_token l = parse_return_directive l
location_directive other l = throw

unfoldable pub location_loop : ℕ → Location → Reader Location
unfolding peek location_directive
location_loop zero l = λ ts. no_fuel
location_loop (suc fuel) l = do
  t ← peek
  let again = (location_directive t.kind l >>= λ l'. location_loop fuel l')
  if is_kind rbrace_token t then pure l else again

unfoldable pub parse_location_block : ServerConfig → Reader ServerConfig
unfolding consume location_loop
parse_location_block server = do
  consume location_token
  path ← consume string_token
  consume lbrace_token
  l ← (λ ts. location_loop (length ts) (record new_location { location = path.value }) ts)
  consume rbrace_token
  pure (record server { locations = server.locations ++ l ∷ [] })

-- `parseDirecive`.
unfoldable pub parse_directive : (Bytes → Bool) → TokenType → ServerConfig → Reader ServerConfig
unfolding parse_listen_directive parse_server_name_directive parse_error_page_directive
    parse_location_block parse_client_max_body_size_directive
parse_directive valid_addr listen_token server = parse_listen_directive valid_addr server
parse_directive valid_addr server_name_token server = parse_server_name_directive server
parse_directive valid_addr error_page_token server = parse_error_page_directive server
parse_directive valid_addr location_token server = parse_location_block server
parse_directive valid_addr client_max_body_size_token server =
    parse_client_max_body_size_directive server
parse_directive valid_addr other server = throw

unfoldable pub server_loop : (Bytes → Bool) → ℕ → ServerConfig → Reader ServerConfig
unfolding peek parse_directive
server_loop valid_addr zero server = λ ts. no_fuel
server_loop valid_addr (suc fuel) server = do
  t ← peek
  let again =
      (parse_directive valid_addr t.kind server >>= λ server'. server_loop valid_addr fuel server')
  if is_kind rbrace_token t then pure server else again

unfoldable pub parse_server_block : (Bytes → Bool) → Reader ServerConfig
unfolding consume server_loop
parse_server_block valid_addr = do
  consume server_token
  consume lbrace_token
  server ← (λ ts. server_loop valid_addr (length ts) new_server ts)
  consume rbrace_token
  pure server

unfoldable pub parse_config_loop :
    (Bytes → Bool) → ℕ → List ServerConfig → Reader (List ServerConfig)
unfolding peek parse_server_block
parse_config_loop valid_addr zero servers = λ ts. no_fuel
parse_config_loop valid_addr (suc fuel) servers = do
  t ← peek
  let again =
      (parse_server_block valid_addr >>= λ server.
      parse_config_loop valid_addr fuel (servers ++ server ∷ []))
  if is_kind end_token t then pure servers else again

unfoldable pub parse_config : (Bytes → Bool) → Reader (List ServerConfig)
unfolding parse_config_loop
parse_config valid_addr ts = parse_config_loop valid_addr (length ts) [] ts

-- The servers that the text of a configuration file describes.
unfoldable pub load_config : (Bytes → Bool) → Bytes → Outcome (List ServerConfig)
unfolding tokenize parse_config
load_config valid_addr text =
    tokenize text >>> λ ts. parse_config valid_addr ts >>> λ r. returns r.0
