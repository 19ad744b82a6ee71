-- ===== src/Request/Body/Chunked.antt =====
-- The chunked body: what an encoder sends is read back, and the chunk loop ends.
use webserv_team.Run.{returns}
use mathlib.Core.List.{append_assoc, append-nil}
use webserv_team.Base.{
  ℕ, zero, suc, ◌+◌, ◌-◌, ◌%◌, ◌^◌, ◌<◌, ◌≡◌, refl, ◌∙◌, ◌≢◌, true, false, [], ◌∷◌, ◌++◌, arith,
  ◌==◌, if◌then◌else◌, Bytes, length, length-append, take-append, drop-append, take-min, drop-min,
}
use webserv_team.Request.{RequestParser, done}
use webserv_team.Libc.{at_end}
use webserv_team.Request.Lines.{NoCrlf, find_line_end-line}
use webserv_team.Request.Body.{
  leave, again, end_chunk, read_chunk, end_body, chunk_size, read_size, chunk_round, chunk_loop,
  parse_chunked_body,
}

abbrev pub crlf : Bytes → Bytes
crlf s = b'\r' ∷ b'\n' ∷ s

-- A size line without its CRLF: it holds no CR, and `strtoul` reads the whole of it as `n`.
pub record SizeLine (line : Bytes) (n : ℕ) : Type 0 where
  pub plain : NoCrlf line
  pub end : Bytes
  pub parsed : chunk_size (line ++ crlf []) ≡ (n, end)
  pub whole : at_end end ≡ true

-- `wire` is a chunked encoding of `content`.
pub data Chunked : Bytes → Bytes → Type 0 where
  last : {line : Bytes} → SizeLine line 0 → Chunked [] (line ++ crlf (crlf []))
  chunk :
      {line content wire : Bytes} (piece : Bytes)
      → SizeLine line (length piece)
      → length piece ≢ 0
      → length piece < 2 ^ 64
      → Chunked content wire
      → Chunked (piece ++ content) (line ++ crlf (piece ++ crlf wire))

line-regroup : (line s : Bytes) → line ++ crlf s ≡ (line ++ crlf []) ++ s
line-regroup line s = rw append_assoc

-- What a size line comes to, with at least a byte behind it.
read_size-line :
    (s : RequestParser) (line : Bytes) (n c : ℕ) (rest : Bytes)
    → SizeLine line n
    → read_size s (line ++ crlf (c ∷ rest)) ≡ (
        if n == 0
        then end_body (record s { current_chunk_size = n }) (c ∷ rest)
        else again
            (record s { current_chunk_size = n; current_chunk_read = 0; reading_chunk_data = true })
            (c ∷ rest))
unfolding read_size
read_size-line s line n c rest k =
    let size : length (line ++ crlf []) ≡ length line + 2 =
      omega (arith, length-append line (crlf [])) in
    let total = length-append (line ++ crlf []) (c ∷ rest) in
    rw (find_line_end-line line (c ∷ rest) k.plain) (
      rw (line-regroup line (c ∷ rest), ← size, take-append, drop-append, k.parsed)
        (ground (arith, k.whole, total)))

-- A chunk of data is taken with its CRLF.
read_chunk-piece :
    (s : RequestParser) (piece rest : Bytes)
    → length piece < 2 ^ 64
    → s.current_chunk_size ≡ length piece
    → s.current_chunk_read ≡ 0
    → read_chunk s (piece ++ crlf rest)
      ≡ again
          (record s {
            body = s.body ++ piece;
            current_chunk_read = 0;
            current_chunk_size = 0;
            reading_chunk_data = false;
          })
          rest
unfolding read_chunk end_chunk
read_chunk-piece s piece rest m size read =
    let remaining : (s.current_chunk_size + 2 ^ 64 - s.current_chunk_read) % 2 ^ 64 ≡ length piece =
      omega arith in
    rw (remaining, take-min, drop-min, take-append, drop-append)
      (ground (arith, length-append piece (crlf rest)))

-- The parser behind a decoded body.
abbrev pub decoded : RequestParser → Bytes → RequestParser
decoded s content = record s {
  body = s.body ++ content;
  state = done;
  current_chunk_size = 0;
  current_chunk_read = 0;
  reading_chunk_data = false;
}

chunk_loop-again :
    (fuel : ℕ) (s : RequestParser) (pos : Bytes) {s' : RequestParser} {rest : Bytes}
    → 0 < length pos
    → chunk_round s pos ≡ again s' rest
    → chunk_loop (suc fuel) s pos ≡ chunk_loop fuel s' rest
unfolding chunk_loop
chunk_loop-again fuel s [] h e = absurd (omega arith)
chunk_loop-again fuel s (c ∷ pos) h e = ground arith

chunk_loop-leave :
    (fuel : ℕ) (s : RequestParser) (pos : Bytes) {s' : RequestParser} {rest : Bytes}
    → 0 < length pos
    → chunk_round s pos ≡ leave s' rest
    → chunk_loop (suc fuel) s pos ≡ returns (s', rest)
unfolding chunk_loop
chunk_loop-leave fuel s [] h e = absurd (omega arith)
chunk_loop-leave fuel s (c ∷ pos) h e = ground arith

chunk_round-size :
    (s : RequestParser) (pos : Bytes)
    → s.reading_chunk_data ≡ false
    → chunk_round s pos ≡ read_size s pos
chunk_round-size s pos r = ground arith

-- The final size line and its CRLF end the body.
chunk_loop-last :
    (s : RequestParser) (line rest : Bytes) (fuel : ℕ)
    → SizeLine line 0
    → s.reading_chunk_data ≡ false
    → s.current_chunk_read ≡ 0
    → chunk_loop (suc fuel) s (line ++ crlf (crlf rest)) ≡ returns (decoded s [], rest)
chunk_loop-last s line rest fuel k r z =
    chunk_loop-leave fuel s (line ++ crlf (crlf rest))
      (omega (arith, length-append line (crlf (crlf rest))))
      (chunk_round-size s (line ++ crlf (crlf rest)) r
        ∙ read_size-line s line 0 b'\r' (b'\n' ∷ rest) k
        ∙ unfold end_body in rw append-nil (ground arith))

-- A chunk takes two rounds.
chunk_loop-chunk :
    (s : RequestParser) (line piece rest : Bytes) (fuel : ℕ)
    → SizeLine line (length piece)
    → length piece ≢ 0
    → length piece < 2 ^ 64
    → s.reading_chunk_data ≡ false
    → chunk_loop (suc (suc fuel)) s (line ++ crlf (piece ++ crlf rest))
      ≡ chunk_loop fuel
          (record s {
            body = s.body ++ piece;
            current_chunk_read = 0;
            current_chunk_size = 0;
            reading_chunk_data = false;
          })
          rest
chunk_loop-chunk s line [] rest fuel k z m r = absurd (z refl)
chunk_loop-chunk s line (c ∷ piece) rest fuel k z m r =
    let ready = record s {
      current_chunk_size = length (c ∷ piece);
      current_chunk_read = 0;
      reading_chunk_data = true;
    } in
    let pos = line ++ crlf ((c ∷ piece) ++ crlf rest) in
    chunk_loop-again (suc fuel) s pos {s' = ready} {rest = (c ∷ piece) ++ crlf rest}
      (omega (arith, length-append line (crlf ((c ∷ piece) ++ crlf rest))))
      (chunk_round-size s pos r
        ∙ read_size-line s line (length (c ∷ piece)) c (piece ++ crlf rest) k
        ∙ ground arith)
    ∙ chunk_loop-again fuel ready ((c ∷ piece) ++ crlf rest) (omega arith)
        (read_chunk-piece ready (c ∷ piece) rest m refl refl)

Chunked-long : {content wire : Bytes} → Chunked content wire → 3 < length wire
Chunked-long (last {line} k) = omega (arith, length-append line (crlf (crlf [])))
Chunked-long (chunk {line} {wire} piece k ne m ks) =
    omega (arith, length-append line (crlf (piece ++ crlf wire)), length-append piece (crlf wire))

chunk_loop-Chunked :
    {content wire : Bytes} (s : RequestParser) (rest : Bytes) (fuel : ℕ)
    → Chunked content wire
    → length wire < suc (suc fuel)
    → s.reading_chunk_data ≡ false
    → s.current_chunk_read ≡ 0
    → chunk_loop (suc (suc fuel)) s (wire ++ rest) ≡ returns (decoded s content, rest)
chunk_loop-Chunked s rest fuel (last {line} k) h r z =
    rw append_assoc (chunk_loop-last s line rest (suc fuel) k r z)
chunk_loop-Chunked s rest zero (chunk {line} {content} {wire} piece k ne m ks) h r z =
    absurd (omega (arith, Chunked-long (chunk piece k ne m ks)))
chunk_loop-Chunked s rest (suc zero) (chunk {line} {content} {wire} piece k ne m ks) h r z =
    absurd (omega (arith, Chunked-long (chunk piece k ne m ks)))
chunk_loop-Chunked s rest (suc (suc fuel)) (chunk {line} {content} {wire} piece k ne m ks) h r z =
    let size = length-append line (crlf (piece ++ crlf wire)) in
    let rest_size = length-append piece (crlf wire) in
    rw (append_assoc, append_assoc)
      (chunk_loop-chunk s line piece (wire ++ rest) (suc (suc fuel)) k ne m r
        ∙ chunk_loop-Chunked _ rest fuel ks (omega (arith, size, rest_size)) refl refl
        ∙ rw append_assoc)

-- A chunked encoding is read back: the parser is done, its body has grown by the encoded content,
-- and what follows the encoding is left unread.
pub parse_chunked_body-Chunked :
    {content wire : Bytes} (s : RequestParser) (rest : Bytes)
    → Chunked content wire
    → s.reading_chunk_data ≡ false
    → s.current_chunk_read ≡ 0
    → parse_chunked_body s (wire ++ rest) ≡ returns (decoded s content, rest)
unfolding parse_chunked_body
parse_chunked_body-Chunked {wire} s rest k r z =
    let (fuel, e, h) = long_fuel wire rest (Chunked-long k) in
    rw e (chunk_loop-Chunked s rest fuel k h r z)
  where
    long_fuel :
        (w rest : Bytes)
        → 3 < length w
        → (f : ℕ) × (suc (length (w ++ rest)) ≡ suc (suc f)) × (length w < suc (suc f))
    long_fuel (c ∷ w) rest h =
        (length (w ++ rest), omega arith, omega (arith, length-append w rest))
    long_fuel [] rest h = absurd (omega arith)
