-- ===== src/Request/Body/Progress.antt =====
-- The chunk loop ends: its fuel is never used up.
use webserv_team.Run.{Run, returns}
use webserv_team.Base.{
  ℕ, zero, suc, ◌+◌, ◌-◌, ◌%◌, ◌^◌, ◌≤◌, ◌<◌, min, ◌≡◌, refl, Bool, true, false, not, [], ◌∷◌,
  arith, ◌==◌, if◌then◌else◌, Bytes, codes, length, take, drop, length-drop, ◌=ᵇ◌,
}
use webserv_team.Request.{RequestParser, log_error}
use webserv_team.Dict.{value_at}
use webserv_team.Libc.{strtoul, at_end}
use webserv_team.Utils.{trim}
use webserv_team.Request.Lines.{find_line_end}
use webserv_team.Request.Body.{
  Round, leave, again, end_chunk, read_chunk, end_body, chunk_size, read_size, chunk_round,
  chunk_loop, parse_chunked_body, parse_body, touch, transfer_encoding,
}

-- A round that goes on leaves a shorter text.
abbrev Shrinks : Bytes → Round → Type 0
Shrinks pos (leave s rest) = Unit
Shrinks pos (again s rest) = length rest < length pos

end_chunk-Shrinks : (s : RequestParser) (pos : Bytes) → Shrinks pos (end_chunk s pos)
unfolding end_chunk
end_chunk-Shrinks s [] = tt
end_chunk-Shrinks s (c ∷ []) = tt
end_chunk-Shrinks s (c ∷ (d ∷ pos)) = ground arith

Shrinks-le : (a b : Bytes) (r : Round) → length a ≤ length b → Shrinks a r → Shrinks b r
Shrinks-le a b (leave s rest) h k = tt
Shrinks-le a b (again s rest) h k = omega arith

end_chunk_if-Shrinks :
    (full : Bool) (s : RequestParser) (pos x : Bytes)
    → length x ≤ length pos
    → Shrinks pos (if full then end_chunk s x else leave s x)
end_chunk_if-Shrinks true s pos x h = Shrinks-le x pos (end_chunk s x) h (end_chunk-Shrinks s x)
end_chunk_if-Shrinks false s pos x h = tt

read_chunk-Shrinks : (s : RequestParser) (pos : Bytes) → Shrinks pos (read_chunk s pos)
unfolding read_chunk
read_chunk-Shrinks s pos = end_chunk_if-Shrinks _ _ pos _ (
    omega (
      arith,
      length-drop
          (min ((s.current_chunk_size + 2 ^ 64 - s.current_chunk_read) % 2 ^ 64) (length pos)) pos,
    ))

end_body-Shrinks : (s : RequestParser) (pos rest : Bytes) → Shrinks rest (end_body s pos)
unfolding end_body
end_body-Shrinks s [] rest = tt
end_body-Shrinks s (c ∷ []) rest = tt
end_body-Shrinks s (c ∷ (d ∷ pos)) rest = ground arith

no_size : chunk_size [] ≡ (0, [])
unfolding chunk_size strtoul trim
no_size = refl

size_if-Shrinks :
    (short bad final : Bool) (s t u v : RequestParser) (pos x : Bytes)
    → (final ≡ false → length x < length pos)
    → Shrinks pos (
        if short
        then leave s pos
        else if bad
        then leave t pos
        else if final
        then end_body u x
        else again v x)
size_if-Shrinks true bad final s t u v pos x h = tt
size_if-Shrinks false true final s t u v pos x h = tt
size_if-Shrinks false false true s t u v pos x h = end_body-Shrinks u x pos
size_if-Shrinks false false false s t u v pos x h = h refl

-- The end of the line is not the start of it, unless the line is read as size 0.
size_line_moves :
    (pos : Bytes) (n : ℕ)
    → 0 < length pos
    → ((chunk_size (take n pos)).0 == 0) ≡ false
    → length (drop n pos) < length pos
size_line_moves pos zero p h = let e = no_size in ground arith
size_line_moves pos (suc n) p h = omega (arith, length-drop (suc n) pos)

read_size-Shrinks :
    (s : RequestParser) (pos : Bytes) → 0 < length pos → Shrinks pos (read_size s pos)
unfolding read_size
read_size-Shrinks s pos p =
    let n = find_line_end pos in
    let size = chunk_size (take n pos) in
    let sized = record s { current_chunk_size = size.0 } in
    size_if-Shrinks (n == length pos) (not (at_end size.1)) (size.0 == 0) s (log_error s 400) sized
      (record sized { current_chunk_read = 0; reading_chunk_data = true }) pos (drop n pos)
      (size_line_moves pos n p)

chunk_round-Shrinks :
    (s : RequestParser) (pos : Bytes) → 0 < length pos → Shrinks pos (chunk_round s pos)
chunk_round-Shrinks s pos p = either s.reading_chunk_data
  where
    either : (b : Bool) → Shrinks pos (if b then read_chunk s pos else read_size s pos)
    either true = read_chunk-Shrinks s pos
    either false = read_size-Shrinks s pos p

chunk_loop_total :
    (fuel : ℕ) (s : RequestParser) (pos : Bytes)
    → length pos < fuel
    → (r : RequestParser × Bytes) × (chunk_loop fuel s pos ≡ returns r)
unfolding chunk_loop
chunk_loop_total zero s pos h = absurd (omega arith)
chunk_loop_total (suc fuel) s [] h = ((s, []), refl)
chunk_loop_total (suc fuel) s (c ∷ pos) h =
    next (chunk_round s (c ∷ pos)) refl (chunk_round-Shrinks s (c ∷ pos) (omega arith))
      (chunk_loop_total fuel)
  where
    next :
        (r : Round)
        → chunk_round s (c ∷ pos) ≡ r
        → Shrinks (c ∷ pos) r
        → ((s' : RequestParser) (rest : Bytes)
            → length rest < fuel
            → (a : RequestParser × Bytes) × (chunk_loop fuel s' rest ≡ returns a))
        → (a : RequestParser × Bytes) × (chunk_loop (suc fuel) s (c ∷ pos) ≡ returns a)
    next (leave s' rest) e k ih = ((s', rest), ground arith)
    next (again s' rest) e k ih = let (a, done_by) = ih s' rest (omega arith) in (a, ground arith)

-- The function returns.
abbrev pub Terminates : Run (RequestParser × Bytes) → Type 0
Terminates run = (r : RequestParser × Bytes) × (run ≡ returns r)

if-Terminates :
    (b : Bool) (m n : Run (RequestParser × Bytes))
    → Terminates m
    → Terminates n
    → Terminates (if b then m else n)
if-Terminates true m n h k = h
if-Terminates false m n h k = k

-- `parse_body` returns, whatever the state and the input: the chunk loop never runs out of fuel.
pub parse_body_total : (s : RequestParser) (pos : Bytes) → Terminates (parse_body s pos)
unfolding parse_body parse_chunked_body
parse_body_total s pos =
    if-Terminates s.has_transfer_encoding _ _
      (if-Terminates (value_at transfer_encoding s.headers =ᵇ codes "chunked") _ _
        (chunk_loop_total (suc (length pos)) (touch transfer_encoding s) pos (omega arith))
        (_, refl))
      (if-Terminates s.has_content_length _ _ (_, refl) (_, refl))
