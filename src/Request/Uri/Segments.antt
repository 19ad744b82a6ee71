-- ===== src/Request/Uri/Segments.antt =====
-- The segments that `normalize_uri` keeps, and that normalising them again changes nothing.
use mathlib.Core.List.{reverse_aux, append-nil}
use webserv_team.Base.{
  ℕ, ◌≡◌, refl, ap, ◌∙◌, ◌≢◌, inl, inr, Bool, true, false, none, some, List, [], ◌∷◌, arith, ◌==◌,
  Option-cases, Bytes, codes, All, =ᵇ_iff, has_byte, ends_in,
}
use webserv_team.Utils.{split}
use webserv_team.Utils.Laws.{Without, split-Without, split-piece, split-last}
use webserv_team.Request.{RequestParser, log_error}
use webserv_team.Request.Uri.{resolve, join, or_slash, render, normalize_decoded, normalize_uri}

-- Neither an empty segment nor one that names this or the parent directory.
abbrev pub IsPlain : Bytes → Type 0
IsPlain w = (w ≢ []) × (w ≢ codes ".") × (w ≢ codes "..")

abbrev pub IsSegment : Bytes → Type 0
IsSegment w = IsPlain w × Without b'/' w

All-reverse_aux :
    (xs ys : List Bytes) → All IsSegment xs → All IsSegment ys → All IsSegment (reverse_aux xs ys)
All-reverse_aux [] ys _ k = k
All-reverse_aux (x ∷ xs) ys (p, h) k = All-reverse_aux xs (x ∷ ys) h (p, k)

pub resolve-IsSegment :
    (absolute : Bool) (stack ws parts : List Bytes)
    → All IsSegment stack
    → All (Without b'/') ws
    → resolve absolute stack ws ≡ some parts
    → All IsSegment parts
unfolding resolve
resolve-IsSegment absolute stack [] parts h k e = ground (arith, All-reverse_aux stack [] h tt)
resolve-IsSegment absolute [] (w ∷ ws) parts h (k, ks) e = ground (
  arith,
  =ᵇ_iff w (codes "."),
  =ᵇ_iff w (codes ".."),
  resolve-IsSegment absolute [] ws parts h ks,
  resolve-IsSegment absolute (w ∷ []) ws parts,
)
resolve-IsSegment absolute (t ∷ stack) (w ∷ ws) parts (p, h) (k, ks) e = ground (
  arith,
  =ᵇ_iff w (codes "."),
  =ᵇ_iff w (codes ".."),
  resolve-IsSegment absolute (t ∷ stack) ws parts,
  resolve-IsSegment absolute (w ∷ t ∷ stack) ws parts,
  resolve-IsSegment absolute stack ws parts h ks,
)

abbrev pub NotDots : Bytes → Type 0
NotDots w = (w ≢ codes ".") × (w ≢ codes "..")

All-NotDots : (ws : List Bytes) → All IsSegment ws → All NotDots ws
All-NotDots [] _ = tt
All-NotDots (w ∷ ws) (((a, b, c), d), h) = ((b, c), All-NotDots ws h)

pub split-join :
    (trailing : Bool) (ws : List Bytes) → All IsSegment ws → split b'/' (join trailing ws) ≡ ws
split-join trailing [] _ = unfold split in refl
split-join trailing ([] ∷ ws) (((e, _, _), _), _) = absurd (e refl)
split-join true ((c ∷ w) ∷ []) ((p, q), _) = split-piece b'/' (c ∷ w) [] q ∙ unfold split in refl
split-join false ((c ∷ w) ∷ []) ((p, q), _) = rw append-nil (split-last b'/' c w q)
split-join trailing ((c ∷ w) ∷ (v ∷ ws)) ((p, q), h) =
    split-piece b'/' (c ∷ w) (join trailing (v ∷ ws)) q
    ∙ ap (◌∷◌ (c ∷ w)) (split-join trailing (v ∷ ws) h)

pub or_slash-join :
    (trailing : Bool) (c : ℕ) (w : Bytes) (ws : List Bytes)
    → or_slash (join trailing ((c ∷ w) ∷ ws)) ≡ join trailing ((c ∷ w) ∷ ws)
or_slash-join trailing c w [] = refl
or_slash-join trailing c w (v ∷ ws) = refl

pub split-slash : (s : Bytes) → split b'/' (b'/' ∷ s) ≡ [] ∷ split b'/' s
split-slash s = split-piece b'/' [] s (unfold has_byte in refl)

-- The segments of a rendered path are the parts, behind the empty one in front of the first slash.
split-render :
    (absolute trailing : Bool) (ws : List Bytes)
    → All IsSegment ws
    → All NotDots (split b'/' (render absolute trailing ws))
split-render true trailing ws h =
    rw (split-slash, split-join trailing ws h) (((cc), (cc)), All-NotDots ws h)
split-render false trailing [] h = rw split-slash (unfold split in (((cc), (cc)), tt))
split-render false trailing ([] ∷ ws) (((e, _, _), _), _) = absurd (e refl)
split-render false trailing ((c ∷ w) ∷ ws) h =
    rw (or_slash-join, split-join trailing ((c ∷ w) ∷ ws) h) (All-NotDots ((c ∷ w) ∷ ws) h)

pub normalize_decoded-some :
    (s : RequestParser) (c : ℕ) (t : Bytes) {parts : List Bytes}
    → resolve (c == b'/') [] (split b'/' (c ∷ t)) ≡ some parts
    → normalize_decoded s (c ∷ t) ≡ (s, render (c == b'/') (ends_in b'/' (c ∷ t)) parts)
unfolding normalize_decoded
normalize_decoded-some s c t e = ground arith

pub normalize_decoded-none :
    (s : RequestParser) (c : ℕ) (t : Bytes)
    → resolve (c == b'/') [] (split b'/' (c ∷ t)) ≡ none
    → normalize_decoded s (c ∷ t) ≡ (log_error s 400, [])
unfolding normalize_decoded
normalize_decoded-none s c t e = ground arith

normalize_decoded-NotDots :
    (s : RequestParser) (t : Bytes) → All NotDots (split b'/' (normalize_decoded s t).1)
normalize_decoded-NotDots s [] = unfold normalize_decoded split in tt
normalize_decoded-NotDots s (c ∷ t) =
    elim (Option-cases (resolve (c == b'/') [] (split b'/' (c ∷ t)))) [
      | inl e ↦ rw (normalize_decoded-none s c t e) (unfold split in tt)
      | inr (parts, e) ↦
          let good =
            resolve-IsSegment (c == b'/') [] (split b'/' (c ∷ t)) parts tt
              (split-Without b'/' (c ∷ t)) e in
          rw (normalize_decoded-some s c t e)
            (split-render (c == b'/') (ends_in b'/' (c ∷ t)) parts good)
    ]

-- Whatever the target, no segment of the normalised text is "." or "..".
pub normalize_uri-NotDots :
    (s : RequestParser) (uri : Bytes) → All NotDots (split b'/' (normalize_uri s uri).1)
unfolding normalize_uri
normalize_uri-NotDots s uri = normalize_decoded-NotDots _ _
