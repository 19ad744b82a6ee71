-- ===== src/Request/Headers/Returns.antt =====
-- On the inputs on which the server parses headers, those that hold an empty line, `parse_headers`
-- returns: it does not run past the end, does not loop for ever and does not throw.
use webserv_team.Run.{Run, returns}
use webserv_team.Base.{
  ℕ, zero, suc, ◌-◌, ◌≤◌, ◌<◌, ◌≡◌, refl, ◌⊎◌, inl, inr, Bool, true, false, ◌&&◌, ◌||◌, [], ◌∷◌,
  arith, ltb, ◌==◌, if◌then◌else◌, Bool-cases, Bytes, codes, length, take, drop, length-drop,
  starts_with,
}
use webserv_team.Request.{RequestParser}
use webserv_team.Request.Lines.{find_line_end}
use webserv_team.Request.Headers.Field.{Scan, Checked, go, stop, parse_field}
use webserv_team.Request.Headers.{headers_loop, parse_headers, max_header_length}

-- `find("\r\n\r\n") != npos`.
unfoldable pub has_blank_line : Bytes → Bool
unfolding starts_with
has_blank_line [] = false
has_blank_line (c ∷ s) = starts_with (codes "\r\n\r\n") (c ∷ s) || has_blank_line s

-- An empty line stands at the start or further on.
abbrev pub EndsHeaders : Bytes → Type 0
EndsHeaders pos = (starts_with (codes "\r\n") pos || has_blank_line pos) ≡ true

later_blank :
    (c d : ℕ) (s : Bytes)
    → has_blank_line (c ∷ d ∷ s) ≡ true
    → (c == b'\r' && d == b'\n') ≡ false
    → has_blank_line (d ∷ s) ≡ true
unfolding has_blank_line
later_blank c d s h e = ground arith

line_then_blank :
    (pos : Bytes)
    → has_blank_line pos ≡ true
    → (2 ≤ find_line_end pos) × EndsHeaders (drop (find_line_end pos) pos)
unfolding find_line_end
line_then_blank [] h = absurd (unfold has_blank_line in cc)
line_then_blank (c ∷ []) h = absurd (unfold has_blank_line in ground arith)
line_then_blank (c ∷ (d ∷ s)) h = elim (Bool-cases (c == b'\r' && d == b'\n')) [
  | inl e ↦ rw e (omega arith, unfold has_blank_line in ground arith)
  | inr e ↦
      let (two, rest) = line_then_blank (d ∷ s) (later_blank c d s h e) in rw e (omega arith, rest)
]

crlf_first : (pos : Bytes) → starts_with (codes "\r\n") pos ≡ true → find_line_end pos ≡ 2
unfolding find_line_end starts_with
crlf_first [] h = cc
crlf_first (c ∷ []) h = ground arith
crlf_first (c ∷ (d ∷ s)) h = ground arith

-- Where the line is not empty, another line follows.
next_line :
    (pos : Bytes)
    → EndsHeaders pos
    → (find_line_end pos ≡ 2)
      ⊎ ((2 ≤ find_line_end pos) × EndsHeaders (drop (find_line_end pos) pos))
next_line pos h = elim (Bool-cases (starts_with (codes "\r\n") pos)) [
  | inl e ↦ inl (crlf_first pos e)
  | inr e ↦ inr (line_then_blank pos (rw e at h))
]

abbrev pub Returns : Run (RequestParser × Bytes) → Type 0
Returns run = (r : RequestParser × Bytes) × (run ≡ returns r)

if-Returns :
    (b : Bool) (m n : Run (RequestParser × Bytes))
    → (b ≡ true → Returns m)
    → (b ≡ false → Returns n)
    → Returns (if b then m else n)
if-Returns true m n h k = h refl
if-Returns false m n h k = k refl

after_field-Returns :
    (r : Checked Scan) (pos : Bytes) (loop : Scan → Run (RequestParser × Bytes))
    → ((sc : Scan) → Returns (loop sc))
    → Returns (elim r [ stop p ↦ returns (p, pos) | go sc ↦ loop sc ])
after_field-Returns (stop p) pos loop h = (_, refl)
after_field-Returns (go sc) pos loop h = h sc

-- The loop returns within the length of its input.
headers_loop-Returns :
    (fuel : ℕ) (sc : Scan) (pos : Bytes)
    → length pos < fuel
    → EndsHeaders pos
    → Returns (headers_loop fuel sc pos)
unfolding headers_loop
headers_loop-Returns zero sc pos h k = absurd (omega arith)
headers_loop-Returns (suc fuel) sc [] h k = ((sc.parser, []), refl)
headers_loop-Returns (suc fuel) sc (c ∷ s) h k =
    let n = find_line_end (c ∷ s) in
    let rest_returns =
      λ (sc' : Scan) (two : 2 ≤ find_line_end (c ∷ s))
          (ends : EndsHeaders (drop (find_line_end (c ∷ s)) (c ∷ s))).
        headers_loop-Returns fuel sc' (drop (find_line_end (c ∷ s)) (c ∷ s))
          (omega (arith, length-drop n (c ∷ s))) ends in
    elim (next_line (c ∷ s) k) [
      | inl empty_line ↦ if-Returns (n == 2) _ _ (λ _. (_, refl)) (λ e. absurd (ground arith))
      | inr (two, ends) ↦
          if-Returns (n == 2) _ _ (λ _. (_, refl))
            λ not_empty.
              if-Returns (c == b' ' || c == 9) _ _ (λ _. (_, refl))
                λ no_fold.
                  if-Returns (ltb max_header_length n) _ _ (λ _. (_, refl))
                    λ short.
                      if-Returns (ltb n 2) _ _ (λ small. absurd (ground arith))
                        λ long.
                          after_field-Returns (parse_field sc (take (n - 2) (c ∷ s))) (c ∷ s) _
                            (λ sc'. rest_returns sc' two ends)
    ]

-- On an input with an empty line `parse_headers` returns: it neither throws nor loops.
pub parse_headers-Returns :
    (s : RequestParser) (pos : Bytes) → EndsHeaders pos → Returns (parse_headers s pos)
unfolding parse_headers
parse_headers-Returns s pos k = headers_loop-Returns (suc (length pos)) _ pos (omega arith) k
