-- ===== src/Request/Lines.antt =====
-- `find_line_end` of srcs/ReqRes/RequestParser.cpp.
use webserv_team.Base.{
  ℕ, suc, ◌+◌, ◌≤◌, ◌&&◌, [], ◌∷◌, ◌++◌, ◌≡◌, ◌≢◌, refl, arith, Bytes, length, ◌==◌, if◌then◌else◌,
}

-- How far behind `pos` the returned pointer stands: behind the first CRLF or, if there is none, at the
-- last byte.
unfoldable pub find_line_end : Bytes → ℕ
find_line_end [] = 0
find_line_end (c ∷ []) = 0
find_line_end (c ∷ (d ∷ s)) =
    let later = suc (find_line_end (d ∷ s)) in if c == b'\r' && d == b'\n' then 2 else later

-- No CRLF stands in the text, nor begins at its end.
abbrev pub NoCrlf : Bytes → Type 0
NoCrlf [] = Unit
NoCrlf (c ∷ s) = (c ≢ b'\r') × NoCrlf s

pub find_line_end-le : (s : Bytes) → find_line_end s ≤ length s
unfolding find_line_end
find_line_end-le [] = omega arith
find_line_end-le (c ∷ []) = omega arith
find_line_end-le (c ∷ (d ∷ s)) = ground (arith, find_line_end-le (d ∷ s))

-- A line without CR is found whole, whatever follows it.
pub find_line_end-line :
    (w s : Bytes) → NoCrlf w → find_line_end (w ++ b'\r' ∷ b'\n' ∷ s) ≡ length w + 2
unfolding find_line_end
find_line_end-line [] s _ = refl
find_line_end-line (c ∷ []) s (h, _) = ground arith
find_line_end-line (c ∷ (d ∷ w)) s (h, hs) = ground (arith, find_line_end-line (d ∷ w) s hs)

-- Without a CRLF the last byte is taken for the end of the line.
pub find_line_end_open : (c : ℕ) (w : Bytes) → NoCrlf (c ∷ w) → find_line_end (c ∷ w) ≡ length w
unfolding find_line_end
find_line_end_open c [] _ = refl
find_line_end_open c (d ∷ w) (h, hs) = ground (arith, find_line_end_open d w hs)
