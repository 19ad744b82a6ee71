-- ===== src/Request/Body/Content.antt =====
-- The body behind a `Content-Length`: how the bytes are cut into reads does not matter.
use webserv_team.Run.{returns, ◌>>=◌}
use mathlib.Core.List.{append_assoc, append-nil}
use webserv_team.Base.{
  ℕ, ◌+◌, ◌-◌, ◌%◌, ◌^◌, ◌≤◌, ◌<◌, ◌≡◌, sym, ap, ◌∙◌, ◌≢◌, inl, inr, true, false, some, [], ◌++◌,
  arith, ◌==◌, if◌then◌else◌, Bool-cases, Bytes, length, take, drop, length-append, take-append,
  drop-append, take-append_long, drop-append_long, take_all, drop_all, take-min, drop-min,
}
use webserv_team.Dict.{lookup}
use webserv_team.Libc.{strtoul, at_end}
use webserv_team.Request.{ParseState, RequestParser, done}
use webserv_team.Request.Body.{read_content, parse_body, content_length_key}

-- What one read leaves: the parser has taken as many bytes as are missing.
read_content_lem :
    (s : RequestParser) (n : ℕ) (end pos : Bytes)
    → at_end end ≡ true
    → n ≢ 0
    → length s.body ≤ n
    → n < 2 ^ 64
    → read_content s n end pos ≡ (
      record s {
        content_length_value = n;
        body = s.body ++ take (n - length s.body) pos;
        state = if length (s.body ++ take (n - length s.body) pos) == n then done else s.state;
      },
      drop (n - length s.body) pos,
    )
unfolding read_content
read_content_lem s n end pos e z h m =
    let wrap : (n + 2 ^ 64 - length s.body) % 2 ^ 64 ≡ n - length s.body = omega arith in
    rw (wrap, take-min, drop-min) (ground arith)

-- The parser after a read that stays within the content.
abbrev taken : RequestParser → ℕ → Bytes → RequestParser
taken s n a = record s {
  content_length_value = n;
  body = s.body ++ a;
  state = if length (s.body ++ a) == n then done else s.state;
}

read_content-taken :
    (s : RequestParser) (n : ℕ) (end a : Bytes)
    → at_end end ≡ true
    → n ≢ 0
    → length s.body + length a ≤ n
    → n < 2 ^ 64
    → read_content s n end a ≡ (taken s n a, [])
read_content-taken s n end a e z h m =
    let fits : length a ≤ n - length s.body = omega arith in
    read_content_lem s n end a e z (omega arith) m
    ∙ rw (take_all (n - length s.body) a fits, drop_all (n - length s.body) a fits)

full_stays : (n : ℕ) (xs ys : Bytes) → length xs ≡ n → length (xs ++ take (n - length xs) ys) ≡ n
full_stays n xs ys h =
    let none_left : n - length xs ≡ 0 = omega arith in rw (none_left, append-nil) h

-- A body that is full after the first read is full after the second.
state-again :
    (st : ParseState) (p q n : ℕ)
    → (p ≡ n → q ≡ n)
    → (if q == n then done else st) ≡ (if q == n then done else (if p == n then done else st))
state-again st p q n h = elim (Bool-cases (p == n)) [
  | inl full ↦ let e : q ≡ n = h (ground arith) in ground arith
  | inr open_ended ↦ rw open_ended
]

-- One read of two pieces is a read of each, if the first does not pass the end of the body.
read_content-append :
    (s : RequestParser) (n : ℕ) (end a b : Bytes)
    → at_end end ≡ true
    → n ≢ 0
    → length s.body + length a ≤ n
    → n < 2 ^ 64
    → read_content s n end (a ++ b) ≡ read_content (read_content s n end a).0 n end b
read_content-append s n end a b e z h m =
    let fits : length a ≤ n - length s.body = omega arith in
    let sum = length-append s.body a in
    let less : n - length s.body - length a ≡ n - length (s.body ++ a) = omega (arith, sum) in
    rw (read_content-taken s n end a e z h m) (
      read_content_lem s n end (a ++ b) e z (omega arith) m
      ∙ rw
          (
            take-append_long (n - length s.body) a b fits,
            drop-append_long (n - length s.body) a b fits,
            less,
            ← append_assoc,
          )
          (ap
            (λ st. (
              record (taken s n (a ++ take (n - length (s.body ++ a)) b)) {
                body = (s.body ++ a) ++ take (n - length (s.body ++ a)) b;
                state = st;
              },
              drop (n - length (s.body ++ a)) b,
            ))
            (state-again s.state (length (s.body ++ a)) _ n (full_stays n (s.body ++ a) b)))
      ∙ sym (read_content_lem (taken s n a) n end b e z (omega (arith, sum)) m))

-- What the header says: a length that `strtoul` reads to its end.
pub record HasLength (s : RequestParser) (n : ℕ) : Type 0 where
  pub not_coded : s.has_transfer_encoding ≡ false
  pub sized : s.has_content_length ≡ true
  pub text : Bytes
  pub end : Bytes
  pub stored : lookup content_length_key s.headers ≡ some text
  pub parsed : strtoul 10 text ≡ (n, end)
  pub whole : at_end end ≡ true
  pub positive : n ≢ 0
  pub is_word : n < 2 ^ 64

parse_body_of_HasLength :
    (s : RequestParser) (n : ℕ) (pos : Bytes)
    → (k : HasLength s n) → parse_body s pos ≡ returns (read_content s n k.end pos)
unfolding parse_body
parse_body_of_HasLength s n pos k = let e = k.parsed in ground arith

parse_body_of_taken :
    (s : RequestParser) (n : ℕ) (a pos : Bytes) (k : HasLength s n)
    → parse_body (taken s n a) pos ≡ returns (read_content (taken s n a) n k.end pos)
unfolding parse_body
parse_body_of_taken s n a pos k = let e = k.parsed in ground arith

parse_body-taken :
    (s : RequestParser) (n : ℕ) (a : Bytes)
    → HasLength s n
    → length s.body + length a ≤ n
    → parse_body s a ≡ returns (taken s n a, [])
parse_body-taken s n a k h =
    parse_body_of_HasLength s n a k
    ∙ ap returns (read_content-taken s n k.end a k.whole k.positive h k.is_word)

-- For a body that is announced by a Content-Length and not chunked: feeding it in two reads, the first
-- of which does not pass its end, comes to the same as feeding it in one, with the same parser and the
-- same unread rest.
pub parse_body-append :
    (s : RequestParser) (n : ℕ) (a b : Bytes)
    → HasLength s n
    → length s.body + length a ≤ n
    → parse_body s (a ++ b) ≡ (do next ← parse_body s a; parse_body next.0 (next.1 ++ b))
parse_body-append s n a b k h = rw (parse_body-taken s n a k h) (
    parse_body_of_HasLength s n (a ++ b) k
    ∙ ap returns (
        read_content-append s n k.end a b k.whole k.positive h k.is_word
        ∙ ap (λ t. read_content t n k.end b)
            (ap (λ r. r.0) (read_content-taken s n k.end a k.whole k.positive h k.is_word)))
    ∙ sym (parse_body_of_taken s n a b k))

-- For a body that is announced by a Content-Length and not chunked: once the missing bytes are there the
-- body is done: it holds what came before and those bytes, and
-- what follows them is left unread.
pub parse_body_done :
    (s : RequestParser) (n : ℕ) (a rest : Bytes)
    → HasLength s n
    → length s.body + length a ≡ n
    → parse_body s (a ++ rest)
      ≡ returns (record s { content_length_value = n; body = s.body ++ a; state = done }, rest)
parse_body_done s n a rest k h =
    parse_body_of_HasLength s n (a ++ rest) k
    ∙ ap returns (
        read_content_lem s n k.end (a ++ rest) k.whole k.positive (omega arith) k.is_word
        ∙ rw (← missing, take-append, drop-append)
            (let e : length (s.body ++ a) ≡ n = omega (arith, length-append s.body a) in
              ground arith))
  where
    missing : length a ≡ n - length s.body
    missing = omega arith
