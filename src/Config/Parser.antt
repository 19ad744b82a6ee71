-- ===== src/Config/Parser.antt =====
-- srcs/ParseConf/Parser.cpp: the tokens that are left stand for `_tokens` and `_index`. A block is
-- parsed with the server or the location that it fills in. `valid_addr` stands for `isValidAddr`,
-- which asks `inet_pton`. The messages of the exceptions are left out.
pub mod Total
use webserv_team.Base.{
  ℕ, zero, suc, ◌+◌, ◌-◌, ◌*◌, ◌/◌, ◌%◌, ◌^◌, ◌≤◌, ◌<◌, min, ◌≡◌, refl, sym, ap, ◌∙◌, ◌≢◌, ◌↔◌, ◌⊎◌,
  inl, inr, Bool, true, false, not, ◌&&◌, ◌||◌, Option, none, some, List, [], ◌∷◌, ◌++◌, map,
  String, arith, ltb, leb, ◌==◌, if◌then◌else◌, ==_iff, Bool-cases, Option-cases, Bytes, codes,
  length, is_empty, take, drop, length-append, length-take, length-drop, take-append-drop,
  take-append, drop-append, take-append_long, drop-append_long, take_all, drop_all, take-min,
  drop-min, All, All-append, ◌=ᵇ◌, =ᵇ_iff, =ᵇ_self, has_byte, cut, cut-append, starts_with, find,
  ends_in, starts_in,
}
use webserv_team.Libc.{strtoul, digits_from, strip_sign, ulong_max}
use webserv_team.Config.{
  Location, new_location, ServerConfig, new_server, Pages, set_page, to_short, size_kb, size_mb,
  size_gb,
}
use webserv_team.Config.Outcome.{Outcome, returns, runtime_error, out_of_range, no_fuel, ◌>>>◌}
use webserv_team.Config.Tokens.{
  TokenType, server_token, listen_token, server_name_token, root_token, error_page_token,
  location_token, lbrace_token, rbrace_token, semicolon_token, number_token, string_token,
  end_token, autoindex_token, index_token, client_max_body_size_token,
  client_max_body_size_mul_token, allowed_methods_token, redirect_token, return_token, cgi_token,
  cgi_path_token, upload_store_token, Token, is_kind, tokenize,
}

abbrev pub Reader {ℓ} : Type ℓ → Type ℓ
Reader A = List Token → Outcome (A × List Token)

infixl 5 ◌>>=◌ ◌>>◌
abbrev pub ◌>>=◌ {ℓ κ} : {A : Type ℓ} {B : Type κ} → Reader A → (A → Reader B) → Reader B
m >>= f = λ ts. m ts >>> λ r. f r.0 r.1

abbrev pub ◌>>◌ {ℓ κ} : {A : Type ℓ} {B : Type κ} → Reader A → Reader B → Reader B
m >> k = m >>= λ _. k

abbrev pub pure {ℓ} : {A : Type ℓ} → A → Reader A
pure a = λ ts. returns (a, ts)

abbrev pub throw {ℓ} : {A : Type ℓ} → Reader A
throw = λ ts. runtime_error

-- `_tokens[_index]`.
unfoldable pub peek : Reader Token
peek [] = out_of_range
peek (t ∷ ts) = returns (t, t ∷ ts)

unfoldable pub consume : TokenType → Reader Token
consume k [] = out_of_range
consume k (t ∷ ts) = if is_kind k t then returns (t, ts) else runtime_error

-- `while (_tokens[_index].type == k) values.push_back(consume(k).value)`.
unfoldable pub consume_all : TokenType → Reader (List Bytes)
consume_all k [] = out_of_range
consume_all k (t ∷ ts) =
    let rest = consume_all k ts >>> λ r. returns (t.value ∷ r.0, r.1) in
    if is_kind k t then rest else returns ([], t ∷ ts)

-- `std::atoi`; an `int` is its bit pattern.
unfoldable pub atoi : Bytes → ℕ
unfolding strtoul
atoi s = (strtoul 10 s).0 % 2 ^ 32

-- `stream >> n` for an unsigned type of the given greatest value, and no blank in front: the value,
-- whether it failed, and whether it stands at the end. It saturates, and a minus sign negates.
unfoldable pub read_unsigned : ℕ → Bytes → ℕ × Bool × Bool
unfolding digits_from strip_sign
read_unsigned greatest s =
    let (negative, digits) = strip_sign s in
    let (n, any, rest) = digits_from 10 0 false digits in
    let value =
      if ltb greatest n
      then greatest
      else if negative
      then (greatest + 1 - n) % (greatest + 1)
      else n in
    (value, not any || ltb greatest n, is_empty rest)

-- The branch of `listenDirective` where a host is written.
unfoldable pub listen_host : (Bytes → Bool) → Bytes → ℕ → Outcome (Bytes × ℕ)
unfolding read_unsigned cut
listen_host valid_addr text port =
    let checked : Bytes → ℕ → Outcome (Bytes × ℕ) =
      λ host p. if valid_addr host then returns (host, p) else runtime_error in
    elim (cut b':' text) [
      | none ↦ checked text port
      | some (host, port_text) ↦
          let (p, fails, at_eof) = read_unsigned 65535 port_text in
          if fails || not at_eof then runtime_error else checked host p
    ]

unfoldable pub listen_directive : (Bytes → Bool) → Bytes → Outcome (Bytes × ℕ)
unfolding read_unsigned listen_host
listen_directive valid_addr text =
    let (p, fails, at_eof) = read_unsigned 65535 text in
    if at_eof then returns (codes "0.0.0.0", p) else listen_host valid_addr text p

abbrev pub lift {ℓ} : {A : Type ℓ} → Outcome A → Reader A
lift m = λ ts. m >>> λ a. returns (a, ts)

unfoldable pub parse_listen_directive : (Bytes → Bool) → ServerConfig → Reader ServerConfig
unfolding consume listen_directive
parse_listen_directive valid_addr server = do
  consume listen_token
  t ← consume number_token
  consume semicolon_token
  listen ← lift (listen_directive valid_addr t.value)
  pure (record server { host = listen.0; port = listen.1 })

unfoldable pub parse_server_name_directive : ServerConfig → Reader ServerConfig
unfolding consume consume_all
parse_server_name_directive server = do
  consume server_name_token
  first ← consume string_token
  others ← consume_all string_token
  consume semicolon_token
  pure (record server { server_names = first.value ∷ others })

unfoldable pub set_pages : List Bytes → Bytes → Pages → Pages
unfolding atoi set_page
set_pages [] file pages = pages
set_pages (c ∷ cs) file pages = set_pages cs file (set_page (to_short (atoi c)) file pages)

unfoldable pub parse_error_page_directive : ServerConfig → Reader ServerConfig
unfolding consume consume_all set_pages
parse_error_page_directive server = do
  consume error_page_token
  error_codes ← consume_all number_token
  file ← consume string_token
  consume semicolon_token
  pure (record server { error_pages = set_pages error_codes file.value server.error_pages })

-- A unit in upper case, which only a word of its own can be, multiplies by one.
unfoldable pub parse_size : Bytes → ℕ → Outcome ℕ
unfolding read_unsigned
parse_size text unit =
    let multiplier =
      if is_empty text
      then 1
      else if unit == b'k'
      then size_kb
      else if unit == b'm'
      then size_mb
      else if unit == b'g'
      then size_gb
      else 1 in
    let (n, fails, at_eof) = read_unsigned ulong_max text in
    if fails then runtime_error else returns ((n * multiplier) % 2 ^ 64)

abbrev pub first_byte : Bytes → ℕ
first_byte [] = 0
first_byte (c ∷ s) = c

unfoldable pub parse_client_max_body_size_directive : ServerConfig → Reader ServerConfig
unfolding consume parse_size
parse_client_max_body_size_directive server = do
  consume client_max_body_size_token
  size ← consume number_token
  unit ← consume client_max_body_size_mul_token
  n ← lift (parse_size size.value (first_byte unit.value))
  consume semicolon_token
  pure (record server { client_max_body_size = n })
