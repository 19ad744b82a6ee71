-- ===== src/Config/Blocks/Directives.antt =====
-- What every directive makes of a server.
use webserv_team.Base.{
  ℕ, ◌+◌, ◌-◌, ◌%◌, ◌^◌, ◌≤◌, ◌<◌, refl, inr, Bool, true, false, not, ◌||◌, none, some, List, [],
  ◌∷◌, arith, ltb, if◌then◌else◌, Bytes, codes, length, All, All-append, cut,
}
use webserv_team.Config.{new_location, ServerConfig, to_short, Pages, set_page}
use webserv_team.Config.Outcome.{Outcome, returns, runtime_error}
use webserv_team.Config.Tokens.{
  TokenType, listen_token, server_name_token, error_page_token, location_token, lbrace_token,
  rbrace_token, semicolon_token, number_token, string_token, client_max_body_size_token,
  client_max_body_size_mul_token, number_of,
}
use webserv_team.Config.Parser.{
  lift, atoi, set_pages, read_unsigned, listen_directive, parse_listen_directive,
  parse_server_name_directive, parse_error_page_directive, parse_client_max_body_size_directive,
  parse_size, listen_host, first_byte,
}
use webserv_team.Config.Parser.Total.{Keeps, Keeps-bind, Keeps-pure, Keeps-throw, Keeps-consume_all}
use webserv_team.Config.Blocks.{parse_location_block, parse_directive}
use webserv_team.Config.Blocks.Locations.{IsSane, Keeps-after, Keeps-next, Post-location_loop}
use webserv_team.Libc.{ulong_max, strip_sign, digits_from}

-- The port and the size fit their machine integers, the codes of the error pages are `short`s, a
-- server has a name, and its locations are sane.
unfoldable pub IsSaneServer : ServerConfig → Type 0
IsSaneServer server =
    (server.port ≤ 65535)
    × (server.client_max_body_size < 2 ^ 64)
    × All (λ page. page.0 < 65536) server.error_pages
    × (1 ≤ length server.server_names)
    × All IsSane server.locations

-- An outcome that is a value with the property, or an exception.
data Raised {A : Type 0} (P : A → Type 0) : Outcome A → Type 0 where
  value_of : (a : A) → P a → Raised P (returns a)
  raised : Raised P runtime_error

Keeps-lift : {A : Type 0} {P : A → Type 0} {m : Outcome A} → Raised P m → Keeps 0 P (lift m)
Keeps-lift (value_of a p) = Keeps-pure a p
Keeps-lift raised = Keeps-throw

Raised-if :
    {A : Type 0} {P : A → Type 0} {x y : Outcome A} (b : Bool)
    → Raised P x
    → Raised P y
    → Raised P (if b then x else y)
Raised-if true p q = p
Raised-if false p q = q

saturated : ℕ → ℕ → Bool → ℕ
saturated g n negative = if ltb g n then g else if negative then (g + 1 - n) % (g + 1) else n

saturated-le : (g n : ℕ) (negative : Bool) → saturated g n negative ≤ g
unfolding saturated
saturated-le g n negative = ground arith

read_unsigned-le : (g : ℕ) (s : Bytes) → (read_unsigned g s).0 ≤ g
unfolding read_unsigned saturated
read_unsigned-le g s =
    let (negative, digits) = strip_sign s in
    saturated-le g (digits_from 10 0 false digits).0 negative

listen_host-Raised :
    (valid_addr : Bytes → Bool) (text : Bytes) (p : ℕ)
    → p ≤ 65535
    → Raised (λ r. r.1 ≤ 65535) (listen_host valid_addr text p)
unfolding listen_host
listen_host-Raised valid_addr text p le =
    elim (cut b':' text)
      as (λ parts.
        Raised (λ r. r.1 ≤ 65535)
          (elim parts as (λ _. Outcome (Bytes × ℕ)) [
            | none ↦ if valid_addr text then returns (text, p) else runtime_error
            | some (host, port_text) ↦
                let (n, fails, at_eof) = read_unsigned 65535 port_text in
                if fails || not at_eof
                then runtime_error
                else if valid_addr host
                then returns (host, n)
                else runtime_error
          ])) [
            | none ↦ Raised-if (valid_addr text) (value_of (text, p) le) raised
            | some (host, port_text) ↦
                let (n, fails, at_eof) = read_unsigned 65535 port_text in
                Raised-if (fails || not at_eof) raised (
                  Raised-if (valid_addr host)
                    (value_of (host, n) (read_unsigned-le 65535 port_text)) raised)
          ]

listen_directive-Raised :
    (valid_addr : Bytes → Bool) (text : Bytes)
    → Raised (λ r. r.1 ≤ 65535) (listen_directive valid_addr text)
unfolding listen_directive
listen_directive-Raised valid_addr text =
    let (p, fails, at_eof) = read_unsigned 65535 text in
    Raised-if at_eof (value_of (codes "0.0.0.0", p) (read_unsigned-le 65535 text))
      (listen_host-Raised valid_addr text p (read_unsigned-le 65535 text))

parse_size-Raised : (text : Bytes) (unit : ℕ) → Raised (λ n. n < 2 ^ 64) (parse_size text unit)
unfolding parse_size
parse_size-Raised text unit =
    let (n, fails, at_eof) = read_unsigned ulong_max text in
    Raised-if fails raised (value_of _ (omega arith))

Keeps-parse_listen :
    (valid_addr : Bytes → Bool) (server : ServerConfig)
    → IsSaneServer server
    → Keeps 1 IsSaneServer (parse_listen_directive valid_addr server)
unfolding parse_listen_directive number_of IsSaneServer
Keeps-parse_listen valid_addr server (_, size, pages, names, locations) =
    Keeps-after listen_token (omega arith) (λ _. Keeps-next number_token (omega arith) (λ t.
      Keeps-next semicolon_token (omega arith) (λ _.
        Keeps-bind (Keeps-lift (listen_directive-Raised valid_addr t.value))
          (λ r le. Keeps-pure _ (le, size, pages, names, locations)))))

Keeps-parse_server_name :
    (server : ServerConfig)
    → IsSaneServer server
    → Keeps 1 IsSaneServer (parse_server_name_directive server)
unfolding parse_server_name_directive number_of IsSaneServer
Keeps-parse_server_name server (port, size, pages, _, locations) =
    Keeps-after server_name_token (omega arith) (λ _. Keeps-next string_token (omega arith) (λ _.
      Keeps-bind (Keeps-consume_all string_token (omega arith)) (λ _ _.
        Keeps-next semicolon_token (omega arith)
          (λ _. Keeps-pure _ (port, size, pages, omega arith, locations)))))

set_page-All :
    (k : ℕ) (v : Bytes) (m : Pages)
    → k < 65536
    → All (λ page. page.0 < 65536) m
    → All (λ page. page.0 < 65536) (set_page k v m)
unfolding set_page
set_page-All k v [] le all = (le, tt)
set_page-All k v ((j, w) ∷ m) le (le', all) = ground (arith, set_page-All k v m le all)

set_pages-All :
    (codes_read : List Bytes) (v : Bytes) (m : Pages)
    → All (λ page. page.0 < 65536) m
    → All (λ page. page.0 < 65536) (set_pages codes_read v m)
unfolding set_pages
set_pages-All [] v m all = all
set_pages-All (c ∷ cs) v m all =
    set_pages-All cs v _ (set_page-All (to_short (atoi c)) v m (omega arith) all)

Keeps-parse_error_page :
    (server : ServerConfig)
    → IsSaneServer server
    → Keeps 1 IsSaneServer (parse_error_page_directive server)
unfolding parse_error_page_directive number_of IsSaneServer
Keeps-parse_error_page server (port, size, pages, names, locations) =
    Keeps-after error_page_token (omega arith) (λ _.
      Keeps-bind (Keeps-consume_all number_token (omega arith)) (λ error_codes _.
        Keeps-next string_token (omega arith) (λ file.
          Keeps-next semicolon_token (omega arith) (λ _. Keeps-pure _ (
            port,
            size,
            set_pages-All error_codes file.value server.error_pages pages,
            names,
            locations,
          )))))

Keeps-parse_max_body_size :
    (server : ServerConfig)
    → IsSaneServer server
    → Keeps 1 IsSaneServer (parse_client_max_body_size_directive server)
unfolding parse_client_max_body_size_directive number_of IsSaneServer
Keeps-parse_max_body_size server (port, _, pages, names, locations) =
    Keeps-after client_max_body_size_token (omega arith) (λ _.
      Keeps-next number_token (omega arith) (λ size.
        Keeps-next client_max_body_size_mul_token (omega arith) (λ unit.
          Keeps-bind (Keeps-lift (parse_size-Raised size.value (first_byte unit.value))) (λ n lt.
            Keeps-next semicolon_token (omega arith)
              (λ _. Keeps-pure _ (port, lt, pages, names, locations))))))

Keeps-parse_location_block :
    (server : ServerConfig)
    → IsSaneServer server
    → Keeps 1 IsSaneServer (parse_location_block server)
unfolding parse_location_block number_of IsSaneServer IsSane
Keeps-parse_location_block server (port, size, pages, names, locations) =
    Keeps-after location_token (omega arith) (λ _. Keeps-next string_token (omega arith) (λ path.
      Keeps-next lbrace_token (omega arith) (λ _.
        Keeps-bind {Q = IsSane} {k = 0}
          (λ ts e.
            Post-location_loop (length ts) (record new_location { location = path.value })
              (inr refl, inr refl, refl) ts e (omega arith))
          (λ l sane. Keeps-next rbrace_token (omega arith) (λ _. Keeps-pure _ (
            port,
            size,
            pages,
            names,
            All-append IsSane server.locations (l ∷ []) locations (sane, tt),
          ))))))

pub Keeps-parse_directive :
    (valid_addr : Bytes → Bool) (k : TokenType) (server : ServerConfig)
    → IsSaneServer server
    → Keeps 1 IsSaneServer (parse_directive valid_addr k server)
unfolding parse_directive
Keeps-parse_directive valid_addr listen_token server sane =
    Keeps-parse_listen valid_addr server sane
Keeps-parse_directive valid_addr server_name_token server sane = Keeps-parse_server_name server sane
Keeps-parse_directive valid_addr error_page_token server sane = Keeps-parse_error_page server sane
Keeps-parse_directive valid_addr location_token server sane = Keeps-parse_location_block server sane
Keeps-parse_directive valid_addr client_max_body_size_token server sane =
    Keeps-parse_max_body_size server sane
Keeps-parse_directive valid_addr other server sane = Keeps-throw
