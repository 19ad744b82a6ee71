-- ===== src/Config/Tokens.antt =====
-- srcs/ParseConf/Tokenize.cpp: the words of a configuration file. The number that a token keeps
-- beside its text is left out: no code reads it later.
pub mod Ends
pub mod Apart
use webserv_team.Base.{
  ℕ, zero, suc, ◌+◌, ◌-◌, ◌*◌, ◌/◌, ◌%◌, ◌^◌, ◌≤◌, ◌<◌, min, ◌≡◌, refl, sym, ap, ◌∙◌, ◌≢◌, ◌↔◌, ◌⊎◌,
  inl, inr, Bool, true, false, not, ◌&&◌, ◌||◌, Option, none, some, List, [], ◌∷◌, ◌++◌, map,
  String, arith, ltb, leb, ◌==◌, if◌then◌else◌, ==_iff, Bool-cases, Option-cases, Bytes, codes,
  length, is_empty, take, drop, length-append, length-take, length-drop, take-append-drop,
  take-append, drop-append, take-append_long, drop-append_long, take_all, drop_all, take-min,
  drop-min, All, All-append, ◌=ᵇ◌, =ᵇ_iff, =ᵇ_self, has_byte, cut, cut-append, starts_with, find,
  ends_in, starts_in,
}
use webserv_team.Libc.{is_digit, is_space, to_lower, digits_from, strip_sign}
use webserv_team.Config.Outcome.{Outcome, returns, runtime_error, no_fuel, ◌>>>◌}

pub data TokenType : Type 0 where
  server_token listen_token server_name_token root_token error_page_token : TokenType
  location_token lbrace_token rbrace_token semicolon_token number_token : TokenType
  string_token end_token autoindex_token index_token : TokenType
  client_max_body_size_token client_max_body_size_mul_token : TokenType
  allowed_methods_token redirect_token return_token cgi_token : TokenType
  cgi_path_token upload_store_token : TokenType

-- The number of an enumerator.
unfoldable pub number_of : TokenType → ℕ
number_of server_token = 0
number_of listen_token = 1
number_of server_name_token = 2
number_of root_token = 3
number_of error_page_token = 4
number_of location_token = 5
number_of lbrace_token = 6
number_of rbrace_token = 7
number_of semicolon_token = 8
number_of number_token = 9
number_of string_token = 10
number_of end_token = 11
number_of autoindex_token = 12
number_of index_token = 13
number_of client_max_body_size_token = 14
number_of client_max_body_size_mul_token = 15
number_of allowed_methods_token = 16
number_of redirect_token = 17
number_of return_token = 18
number_of cgi_token = 19
number_of cgi_path_token = 20
number_of upload_store_token = 21

pub record Token : Type 0 where
  pub kind : TokenType
  pub value : Bytes

-- `token.type == k`.
unfoldable pub is_kind : TokenType → Token → Bool
is_kind k t = number_of k == number_of t.kind

unfoldable pub is_size_multiplier : ℕ → Bool
unfolding to_lower has_byte
is_size_multiplier c = has_byte (to_lower c) (codes "kmg")

abbrev pub is_delimiter : ℕ → Bool
is_delimiter c = has_byte c (codes ";{}")

-- `SanitizeInput`; the first argument tells whether the byte in front, as it has been rewritten, is
-- a digit. The blank put behind a delimiter or a unit stands in front of the next byte.
unfoldable pub sanitize_input : Bool → Bytes → Bytes
unfolding is_size_multiplier is_digit has_byte to_lower
sanitize_input after_digit [] = []
sanitize_input after_digit (c ∷ s) =
    let apart = sanitize_input false s in
    let joined = sanitize_input (is_digit c) s in
    if is_delimiter c
    then b' ' ∷ c ∷ b' ' ∷ apart
    else if is_size_multiplier c && after_digit
    then b' ' ∷ to_lower c ∷ b' ' ∷ apart
    else c ∷ joined

-- The word that `stream >> word` reads, from its first byte on, and what is left.
unfoldable pub read_word : Bytes → Bytes × Bytes
unfolding is_space
read_word [] = ([], [])
read_word (c ∷ s) = let (w, rest) = read_word s in if is_space c then ([], c ∷ s) else (c ∷ w, rest)

-- `stream.ignore(…, '\n')`.
unfoldable pub skip_line : Bytes → Bytes
skip_line [] = []
skip_line (c ∷ s) = let rest = skip_line s in if c == b'\n' then s else rest

-- `string_to_size_t`: the sign and the magnitude of an `int` that is the whole word.
unfoldable pub string_to_size_t : Bytes → Option (Bool × ℕ)
unfolding digits_from strip_sign
string_to_size_t word =
    let (negative, digits) = strip_sign word in
    let (n, any, rest) = digits_from 10 0 false digits in
    let fits = if negative then leb n (2 ^ 31) else ltb n (2 ^ 31) in
    if any && is_empty rest && fits then some (negative, n) else none

abbrev pub keywords : List (Bytes × TokenType)
keywords =
    (codes "server", server_token)
    ∷ (codes "listen", listen_token)
    ∷ (codes "root", root_token)
    ∷ (codes "error_page", error_page_token)
    ∷ (codes "location", location_token)
    ∷ (codes "autoindex", autoindex_token)
    ∷ (codes "index", index_token)
    ∷ (codes "client_max_body_size", client_max_body_size_token)
    ∷ (codes "allowed_methods", allowed_methods_token)
    ∷ (codes "redirect", redirect_token)
    ∷ (codes "cgi", cgi_token)
    ∷ (codes "cgi_path", cgi_path_token)
    ∷ (codes "upload_store", upload_store_token)
    ∷ (codes "server_name", server_name_token)
    ∷ (codes "{", lbrace_token)
    ∷ (codes "}", rbrace_token)
    ∷ (codes ";", semicolon_token)
    ∷ (codes "return", return_token)
    ∷ []

unfoldable pub find_keyword : Bytes → List (Bytes × TokenType) → Option TokenType
find_keyword w [] = none
find_keyword w ((k, kind) ∷ ks) = if w =ᵇ k then some kind else find_keyword w ks

abbrev pub is_unit : Bytes → Bool
is_unit (c ∷ []) = is_size_multiplier c
is_unit w = false

abbrev pub token : Bytes → TokenType → Token
token word kind = record { kind = kind; value = word }

-- A word that is a whole `int`. A negative one is refused.
unfoldable pub number_or_string : Bytes → Option (Bool × ℕ) → Outcome Token
number_or_string word none = returns (token word string_token)
number_or_string word (some (negative, n)) =
    if negative && not (n == 0) then runtime_error else returns (token word number_token)

-- A word with the keyword that it is, if any.
unfoldable pub keyword_or_value : Bytes → Option TokenType → Outcome Token
unfolding number_or_string string_to_size_t is_size_multiplier
keyword_or_value word (some kind) = returns (token word kind)
keyword_or_value word none =
    if is_unit word
    then returns (token word client_max_body_size_mul_token)
    else number_or_string word (string_to_size_t word)

-- The token of a word: the chain of comparisons in `tokenize`.
unfoldable pub token_of : Bytes → Outcome Token
unfolding find_keyword keyword_or_value
token_of word = keyword_or_value word (find_keyword word keywords)

abbrev pub end_of_tokens : Token
end_of_tokens = record { kind = end_token; value = [] }

abbrev is_comment : Bytes → Bool
is_comment w = w =ᵇ codes "#"

-- The loop over the words. Every round reads a byte at least.
unfoldable pub words_loop : ℕ → Bytes → Outcome (List Token)
unfolding read_word skip_line token_of is_space
words_loop zero s = no_fuel
words_loop (suc fuel) [] = returns (end_of_tokens ∷ [])
words_loop (suc fuel) (c ∷ s) =
    let (word, rest) = read_word (c ∷ s) in
    let after_space = words_loop fuel s in
    let after_comment = words_loop fuel (skip_line rest) in
    let after_word = words_loop fuel rest in
    if is_space c
    then after_space
    else if is_comment word
    then after_comment
    else (token_of word >>> λ t. after_word >>> λ ts. returns (t ∷ ts))

unfoldable pub tokenize : Bytes → Outcome (List Token)
unfolding sanitize_input words_loop
tokenize input = let s = sanitize_input false input in words_loop (suc (length s)) s
