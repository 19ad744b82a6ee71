-- ===== src/Libc.antt =====
-- What the program uses of the C library, in the C locale, where a plain `char` is signed: a byte
-- from 128 on is a negative `char`.
use webserv_team.Base.{
  ℕ, ◌+◌, ◌-◌, ◌*◌, ◌%◌, ◌^◌, Bool, true, false, ◌&&◌, ◌||◌, [], ◌∷◌, ltb, leb, ◌==◌, if◌then◌else◌,
  Bytes,
}

abbrev within : ℕ → ℕ → ℕ → Bool
within lo hi c = leb lo c && leb c hi

unfoldable pub is_digit : ℕ → Bool
is_digit c = within b'0' b'9' c

unfoldable pub is_alnum : ℕ → Bool
is_alnum c = within b'0' b'9' c || within b'A' b'Z' c || within b'a' b'z' c

unfoldable pub is_xdigit : ℕ → Bool
is_xdigit c = within b'0' b'9' c || within b'A' b'F' c || within b'a' b'f' c

unfoldable pub is_space : ℕ → Bool
is_space c = c == b' ' || within 9 13 c

unfoldable pub to_lower : ℕ → ℕ
to_lower c = if within b'A' b'Z' c then c + 32 else c

unfoldable pub to_upper : ℕ → ℕ
to_upper c = if within b'a' b'z' c then c - 32 else c

-- `c < n` for a `char` and a small `n`.
unfoldable pub char_lt : ℕ → ℕ → Bool
char_lt c n = leb 128 c || ltb c n

-- The value of a digit in any base up to 36, and 36 for what is no digit.
unfoldable pub digit_value : ℕ → ℕ
digit_value c =
    if within b'0' b'9' c
    then c - b'0'
    else if within b'a' b'z' c
    then c - b'a' + 10
    else if within b'A' b'Z' c
    then c - b'A' + 10
    else 36

abbrev pub ulong_max : ℕ
ulong_max = 2 ^ 64 - 1

-- The digits at the front: their value, whether there were any, and what follows them.
unfoldable pub digits_from : ℕ → ℕ → Bool → Bytes → ℕ × Bool × Bytes
unfolding digit_value
digits_from base acc any [] = (acc, any, [])
digits_from base acc any (c ∷ s) =
    let more = digits_from base (acc * base + digit_value c) true s in
    if ltb (digit_value c) base then more else (acc, any, c ∷ s)

unfoldable pub skip_spaces : Bytes → Bytes
skip_spaces [] = []
skip_spaces (c ∷ s) = let rest = skip_spaces s in if is_space c then rest else c ∷ s

-- A base-16 prefix is skipped only in front of a digit.
unfoldable pub skip_prefix : ℕ → Bytes → Bytes
skip_prefix base (z ∷ x ∷ d ∷ s) =
    if base == 16 && z == b'0' && to_lower x == b'x' && ltb (digit_value d) 16
    then d ∷ s
    else z ∷ x ∷ d ∷ s
skip_prefix base s = s

-- An overflow saturates, whatever the sign; a minus sign negates modulo 2 ^ 64.
unfoldable pub signed_value : Bool → ℕ → ℕ
signed_value negative n =
    if ltb ulong_max n then ulong_max else if negative then (2 ^ 64 - n) % 2 ^ 64 else n

unfoldable pub strip_sign : Bytes → Bool × Bytes
strip_sign [] = (false, [])
strip_sign (c ∷ s) =
    if c == b'-' then (true, s) else if c == b'+' then (false, s) else (false, c ∷ s)

-- `strtoul(s, &end, base)`: the value and the text at `end`. With no digits `end` is `s`.
unfoldable pub strtoul : ℕ → Bytes → ℕ × Bytes
unfolding digits_from skip_spaces skip_prefix signed_value strip_sign digit_value is_space to_lower
strtoul base s =
    let (negative, t) = strip_sign (skip_spaces s) in
    let (n, any, rest) = digits_from base 0 false (skip_prefix base t) in
    if any then (signed_value negative n, rest) else (0, s)

-- `*end == '\0'`: the text ends there, or holds a zero byte.
abbrev pub at_end : Bytes → Bool
at_end [] = true
at_end (c ∷ s) = c == 0
