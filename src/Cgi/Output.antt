-- ===== src/Cgi/Output.antt =====
-- What the output of a script comes to.
use webserv_team.Base.{
  ℕ, suc, ◌+◌, ◌≤◌, ◌<◌, ◌≡◌, refl, sym, ap, ◌∙◌, inl, inr, false, none, some, List, [], ◌∷◌, ◌++◌,
  arith, ==_iff, Option-cases, Bytes, codes, length, is_empty, take, drop, length-append,
  take-append, drop-append, has_byte, cut, starts_with, find, starts_in,
}
use mathlib.Core.List.{append_assoc}
use webserv_team.Utils.{split, trim}
use webserv_team.Response.{ResponseBuilder, set_headers, set_body, set_status}
use webserv_team.Response.Multipart.{split_at, double_crlf}
use webserv_team.Cgi.{
  CgiOutput, strip_cr, read_status, read_header, read_line, read_lines, split_output, finish,
  process_cgi_output,
}

abbrev pub IsStatus : ℕ → Type 0
IsStatus code = (100 ≤ code) × (code < 600)

read_status-IsStatus :
    (line : Bytes) (o : CgiOutput)
    → IsStatus o.response.status_code
    → IsStatus (read_status line o).response.status_code
unfolding read_status set_status
read_status-IsStatus line o h = ground arith

read_header-IsStatus :
    (line name value : Bytes) (o : CgiOutput)
    → IsStatus o.response.status_code
    → IsStatus (read_header line name value o).response.status_code
unfolding read_header set_headers
read_header-IsStatus line name value o h = ground (arith, read_status-IsStatus line o h)

read_line-IsStatus :
    (text : Bytes) (o : CgiOutput)
    → IsStatus o.response.status_code
    → IsStatus (read_line text o).response.status_code
unfolding read_line
read_line-IsStatus text o h = elim (Option-cases (cut b':' (strip_cr text))) [
  | inl e ↦ ground arith
  | inr ((name, rest), e) ↦
      let ih = read_header-IsStatus (strip_cr text) name (trim rest (codes " \t")) o h in
      ground (arith, ih)
]

read_lines-IsStatus :
    (ls : List Bytes) (o : CgiOutput)
    → IsStatus o.response.status_code
    → IsStatus (read_lines ls o).response.status_code
unfolding read_lines
read_lines-IsStatus [] o h = h
read_lines-IsStatus (l ∷ ls) o h = read_lines-IsStatus ls (read_line l o) (read_line-IsStatus l o h)

finish-IsStatus :
    (body : Bytes) (o : CgiOutput)
    → IsStatus o.response.status_code
    → IsStatus (finish body o).status_code
unfolding finish set_headers set_body set_status
finish-IsStatus body o h = ground arith

-- Whatever a script prints, the status of the response is at least 100 and less than 600.
pub process_cgi_output-IsStatus :
    (output : Bytes) (r : ResponseBuilder) → IsStatus (process_cgi_output output r).status_code
unfolding process_cgi_output set_status
process_cgi_output-IsStatus output r =
    finish-IsStatus _ _
      (read_lines-IsStatus (split 10 (split_output output).0) _ (omega arith, omega arith))

-- Lines that are not empty and have no CR, with a CRLF between them.
pub data HeaderLines : Bytes → Type 0 where
  one_line : (line : Bytes) → is_empty line ≡ false → has_byte 13 line ≡ false → HeaderLines line
  next_line :
      (line : Bytes) {lines : Bytes}
      → is_empty line ≡ false
      → has_byte 13 line ≡ false
      → HeaderLines lines
      → HeaderLines (line ++ 13 ∷ (10 ∷ lines))

-- The first byte of header lines is no CR.
starts_plain : (s t : Bytes) → HeaderLines s → starts_in 13 (s ++ t) ≡ false
unfolding has_byte
starts_plain s t (one_line [] e h) = ground arith
starts_plain s t (one_line (c ∷ line) e h) = ground arith
starts_plain s t (next_line [] e h k) = ground arith
starts_plain s t (next_line (c ∷ line) e h k) = ground arith

find-line :
    (line s : Bytes) (n : ℕ)
    → has_byte 13 line ≡ false
    → find double_crlf s ≡ some n
    → find double_crlf (line ++ s) ≡ some (length line + n)
unfolding find starts_with has_byte
find-line [] s n h e = e ∙ ap some (omega arith)
find-line (c ∷ line) s n h e =
    let ih = find-line line s n (ground arith) e in ground (arith, ih, ==_iff 13 c, ==_iff c 13)

find-crlf :
    (s : Bytes) (n : ℕ)
    → starts_in 13 s ≡ false
    → find double_crlf s ≡ some n
    → find double_crlf (13 ∷ (10 ∷ s)) ≡ some (suc (suc n))
unfolding find starts_with
find-crlf [] n h e = ground arith
find-crlf (c ∷ s) n h e = ground (arith, ==_iff 13 c, ==_iff c 13)

find-HeaderLines :
    (s t : Bytes) → HeaderLines s → find double_crlf (s ++ (double_crlf ++ t)) ≡ some (length s)
find-HeaderLines s t (one_line line e h) =
    find-line line (double_crlf ++ t) 0 h (unfold find starts_with in refl) ∙ ap some (omega arith)
find-HeaderLines s t (next_line line {lines} e h k) =
    let ih = find-HeaderLines lines t k in
    let step =
      find-crlf (lines ++ (double_crlf ++ t)) (length lines)
        (starts_plain lines (double_crlf ++ t) k) ih in
    let whole = find-line line (13 ∷ (10 ∷ (lines ++ (double_crlf ++ t)))) _ h step in
    let size : length line + suc (suc (length lines)) ≡ length (line ++ 13 ∷ (10 ∷ lines)) =
      omega (arith, length-append line (13 ∷ (10 ∷ lines))) in
    ap (find double_crlf) (append_assoc line (13 ∷ (10 ∷ lines)) (double_crlf ++ t))
    ∙ whole
    ∙ ap some size

split_output-found :
    (s t : Bytes)
    → find double_crlf (s ++ (double_crlf ++ t)) ≡ some (length s)
    → split_output (s ++ (double_crlf ++ t)) ≡ (s, t)
unfolding split_output split_at
split_output-found s t e =
    let front : take (length s) (s ++ (double_crlf ++ t)) ≡ s = take-append s (double_crlf ++ t) in
    let size : length (s ++ double_crlf) ≡ length s + 4 = length-append s double_crlf in
    let back : drop (length s + 4) (s ++ (double_crlf ++ t)) ≡ t =
      ap (λ n. drop n (s ++ (double_crlf ++ t))) (sym size)
      ∙ ap (drop (length (s ++ double_crlf))) (sym (append_assoc s double_crlf t))
      ∙ drop-append (s ++ double_crlf) t in
    ground (arith, e, front, back)

-- The two forms of an output: header lines that end with CRLF, a line CRLF and a body; or a text without
-- CR, such as one whose lines end with LF alone.
pub data IsOutput : Bytes → Bytes → Type 0 where
  with_headers :
      (headers body : Bytes)
      → HeaderLines headers
      → IsOutput (headers ++ (double_crlf ++ body)) body
  bare : (text : Bytes) → has_byte 13 text ≡ false → IsOutput text text

find-bare : (text : Bytes) → has_byte 13 text ≡ false → find double_crlf text ≡ none
unfolding find starts_with has_byte
find-bare [] h = refl
find-bare (c ∷ text) h =
    let ih = find-bare text (ground arith) in ground (arith, ih, ==_iff 13 c, ==_iff c 13)

split_output-bare : (text : Bytes) → has_byte 13 text ≡ false → split_output text ≡ ([], text)
unfolding split_output split_at
split_output-bare text h = let missing = find-bare text h in ground arith

-- A script that prints header lines that are not empty and have no CR, each ended by CRLF, then CRLF
-- and a body is answered with that body, whatever bytes it holds. A script whose output has no CR, such as one that ends its lines with
-- LF alone, is answered with all of its output as the body, its header lines included.
pub process_cgi_output_body :
    (output body : Bytes) (r : ResponseBuilder)
    → IsOutput output body
    → (process_cgi_output output r).body ≡ body
unfolding process_cgi_output finish set_body
process_cgi_output_body _ _ r (with_headers headers body k) =
    ap (λ p. p.1) (split_output-found headers body (find-HeaderLines headers body k))
process_cgi_output_body _ _ r (bare text h) = ap (λ p. p.1) (split_output-bare text h)
