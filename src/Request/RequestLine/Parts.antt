-- ===== src/Request/RequestLine/Parts.antt =====
-- A request line with its CRLF, as the parser reads it.
use mathlib.Core.List.{append_assoc}
use webserv_team.Base.{
  ℕ, ◌+◌, ◌-◌, ◌≤◌, ◌≡◌, refl, ap, ◌∙◌, [], ◌∷◌, ◌++◌, arith, Bytes, length, drop, length-append,
  take-append, drop-append,
}
use webserv_team.Utils.{split}
use webserv_team.Utils.Laws.{Without, split-piece}
use webserv_team.Request.{RequestParser}
use webserv_team.Request.Lines.{NoCrlf, find_line_end-line}
use webserv_team.Request.Setters.{supported_version}
use webserv_team.Request.RequestLine.{
  set_parts, after_parts, parse_request_line, max_request_line_length,
}

pub NoCrlf-append : (a b : Bytes) → NoCrlf a → NoCrlf b → NoCrlf (a ++ b)
NoCrlf-append [] b _ k = k
NoCrlf-append (c ∷ a) b (p, h) k = (p, NoCrlf-append a b h k)

-- The three parts with a space between each two.
abbrev pub three_parts : Bytes → Bytes → Bytes
three_parts method target = method ++ b' ' ∷ (target ++ b' ' ∷ supported_version)

pub split-three_parts :
    (method target : Bytes)
    → Without b' ' method
    → Without b' ' target
    → split b' ' (three_parts method target) ≡ method ∷ target ∷ supported_version ∷ []
split-three_parts method target h k =
    split-piece b' ' method (target ++ b' ' ∷ supported_version) h
    ∙ ap (◌∷◌ method)
        (split-piece b' ' target supported_version k ∙ ap (◌∷◌ target) (unfold split in refl))

-- A line with something behind it is handed to the setters, part by part.
pub parse_request_line-line :
    (s : RequestParser) (line : Bytes) (c : ℕ) (rest : Bytes)
    → NoCrlf line
    → length line + 2 ≤ max_request_line_length
    → parse_request_line s (line ++ b'\r' ∷ b'\n' ∷ c ∷ rest)
      ≡ after_parts (set_parts s (split b' ' line)) (line ++ b'\r' ∷ b'\n' ∷ c ∷ rest) (c ∷ rest)
unfolding parse_request_line
parse_request_line-line s line c rest h short =
    let back : length line + 2 - 2 ≡ length line = omega arith in
    let end : length (line ++ b'\r' ∷ b'\n' ∷ []) ≡ length line + 2 =
      omega (arith, length-append line (b'\r' ∷ b'\n' ∷ [])) in
    let total = length-append line (b'\r' ∷ b'\n' ∷ c ∷ rest) in
    let behind : drop (length line + 2) (line ++ b'\r' ∷ b'\n' ∷ c ∷ rest) ≡ c ∷ rest =
      rw (← end) (rw (regroup) (drop-append (line ++ b'\r' ∷ b'\n' ∷ []) (c ∷ rest))) in
    rw (find_line_end-line line (c ∷ rest) h, back, take-append, behind) (ground (arith, total))
  where
    regroup : line ++ b'\r' ∷ b'\n' ∷ c ∷ rest ≡ (line ++ b'\r' ∷ b'\n' ∷ []) ++ c ∷ rest
    regroup = rw append_assoc
