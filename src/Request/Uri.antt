-- ===== src/Request/Uri.antt =====
-- The request target: `decode_percent_encoding`, `normalize_uri` and `normalize_path` of
-- srcs/ReqRes/RequestParser.cpp.
pub mod Segments
pub mod Idempotent
use mathlib.Core.List.{reverse}
use webserv_team.Base.{
  ℕ, ◌+◌, ◌*◌, ◌-◌, Bool, true, false, not, ◌&&◌, ◌||◌, List, [], ◌∷◌, ◌++◌, Option, none, some,
  Bytes, codes, ◌==◌, ◌=ᵇ◌, if◌then◌else◌, is_empty, ends_in, starts_in,
}
use webserv_team.Libc.{is_xdigit, is_digit, to_upper}
use webserv_team.Utils.{split}
use webserv_team.Request.{RequestParser, log_error}

-- What `decode_percent_encoding` meets: a decoded text, a zero byte or a bad escape.
pub data Decoded : Type 0 where
  text : Bytes → Decoded
  null_byte : Decoded
  bad_escape : Decoded

pub prepend : ℕ → Decoded → Decoded
prepend c (text s) = text (c ∷ s)
prepend c null_byte = null_byte
prepend c bad_escape = bad_escape

pub hex_value : ℕ → ℕ
unfolding is_digit to_upper
hex_value c = if is_digit c then c - b'0' else to_upper c - b'A' + 10

-- The loop. A percent sign with fewer than two bytes behind it stands for itself.
unfoldable pub decode : Bytes → Decoded
unfolding prepend hex_value is_xdigit
decode [] = text []
decode (c ∷ []) = text (c ∷ [])
decode (c ∷ (d ∷ [])) = text (c ∷ d ∷ [])
decode (c ∷ (d ∷ (e ∷ s))) =
    let escaped = decode s in
    let plain = prepend c (decode (d ∷ (e ∷ s))) in
    let value = hex_value d * 16 + hex_value e in
    if c == b'%'
    then (if is_xdigit d && is_xdigit e
        then (if value == 0 then null_byte else prepend value escaped)
        else bad_escape)
    else plain

unfoldable pub decode_percent_encoding : RequestParser → Bytes → RequestParser × Bytes
decode_percent_encoding s str = elim (decode str) [
  | text t ↦ (s, t)
  | null_byte ↦ (log_error s 400, [])
  | bad_escape ↦ (log_error s 400, [])
]

-- The loop of `normalize_uri` over the segments. The stack has its top at the head; `none` is a step
-- above the root.
unfoldable pub resolve : Bool → List Bytes → List Bytes → Option (List Bytes)
resolve absolute stack [] = some (reverse stack)
resolve absolute stack (w ∷ ws) =
    let skipped = resolve absolute stack ws in
    let pushed = resolve absolute (w ∷ stack) ws in
    let popped : Option (List Bytes) = elim stack [
      | [] ↦ none
      | top ∷ below ↦ resolve absolute below ws
    ] in
    if is_empty w || w =ᵇ codes "."
    then skipped
    else if w =ᵇ codes ".."
    then (if not absolute then none else popped)
    else pushed

-- The loop that writes the parts.
abbrev pub join : Bool → List Bytes → Bytes
join trailing [] = []
join trailing (w ∷ []) = w ++ (if trailing then b'/' ∷ [] else [])
join trailing (w ∷ (v ∷ ws)) = w ++ b'/' ∷ join trailing (v ∷ ws)

abbrev pub or_slash : Bytes → Bytes
or_slash [] = codes "/"
or_slash (c ∷ s) = c ∷ s

abbrev pub render : Bool → Bool → List Bytes → Bytes
render absolute trailing parts =
    or_slash ((if absolute then b'/' ∷ [] else []) ++ join trailing parts)

-- `normalize_uri` behind the decoding.
unfoldable pub normalize_decoded : RequestParser → Bytes → RequestParser × Bytes
normalize_decoded s [] = (s, [])
normalize_decoded s (c ∷ decoded) = elim (resolve (c == b'/') [] (split b'/' (c ∷ decoded))) [
  | none ↦ (log_error s 400, [])
  | some parts ↦ (s, render (c == b'/') (ends_in b'/' (c ∷ decoded)) parts)
]

unfoldable pub normalize_uri : RequestParser → Bytes → RequestParser × Bytes
normalize_uri s uri =
    let (s', decoded) = decode_percent_encoding s uri in normalize_decoded s' decoded

-- `normalize_path`: runs of slashes become one.
squeeze : Bool → Bytes → Bytes
squeeze last_was_slash [] = []
squeeze last_was_slash (c ∷ s) =
    let slash = squeeze true s in
    let other = squeeze false s in
    if c == b'/' then (if last_was_slash then slash else c ∷ slash) else c ∷ other

unfoldable pub normalize_path : Bytes → Bytes
unfolding squeeze
normalize_path path = squeeze false path
