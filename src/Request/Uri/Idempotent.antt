-- ===== src/Request/Uri/Idempotent.antt =====
-- Normalising a decoded target a second time changes nothing.
use mathlib.Core.List.{reverse_aux, append-nil}
use webserv_team.Base.{
  ℕ, ◌≡◌, refl, sym, ap, ◌∙◌, inl, inr, Bool, true, false, some, List, [], ◌∷◌, ◌++◌, arith, ◌==◌,
  Option-cases, Bytes, codes, All, =ᵇ_iff, has_byte, ends_in,
}
use webserv_team.Utils.{split}
use webserv_team.Utils.Laws.{Without, split-Without}
use webserv_team.Request.{RequestParser}
use webserv_team.Request.Uri.{resolve, join, render, normalize_decoded}
use webserv_team.Request.Uri.Segments.{
  IsSegment, resolve-IsSegment, split-join, split-slash, or_slash-join, normalize_decoded-some,
  normalize_decoded-none,
}

resolve_of_IsSegment :
    (absolute : Bool) (stack ws : List Bytes)
    → All IsSegment ws
    → resolve absolute stack ws ≡ some (reverse_aux stack ws)
unfolding resolve
resolve_of_IsSegment absolute stack [] _ = refl
resolve_of_IsSegment absolute stack (w ∷ ws) (((a, b, c), d), h) = ground (
  arith,
  =ᵇ_iff w (codes "."),
  =ᵇ_iff w (codes ".."),
  resolve_of_IsSegment absolute (w ∷ stack) ws h,
)

ends_in-append : (c d : ℕ) (w s : Bytes) → ends_in c (w ++ d ∷ s) ≡ ends_in c (d ∷ s)
ends_in-append c d [] s = refl
ends_in-append c d (x ∷ []) s = refl
ends_in-append c d (x ∷ (y ∷ w)) s = ends_in-append c d (y ∷ w) s

pub ends_in-Without : (c d : ℕ) (w : Bytes) → Without c (d ∷ w) → ends_in c (d ∷ w) ≡ false
unfolding has_byte
ends_in-Without c d [] h = ground arith
ends_in-Without c d (e ∷ w) h = ends_in-Without c e w (ground arith)

ends_in-join_slash :
    (trailing : Bool) (d : ℕ) (v : Bytes) (ws : List Bytes)
    → ends_in b'/' (b'/' ∷ join trailing ((d ∷ v) ∷ ws))
      ≡ ends_in b'/' (join trailing ((d ∷ v) ∷ ws))
ends_in-join_slash trailing d v [] = refl
ends_in-join_slash trailing d v (w ∷ ws) = refl

ends_in-join :
    (trailing : Bool) (c : ℕ) (w : Bytes) (ws : List Bytes)
    → All IsSegment ((c ∷ w) ∷ ws)
    → ends_in b'/' (join trailing ((c ∷ w) ∷ ws)) ≡ trailing
ends_in-join true c w [] _ = ends_in-append b'/' b'/' (c ∷ w) []
ends_in-join false c w [] ((_, q), _) = rw append-nil (ends_in-Without b'/' c w q)
ends_in-join trailing c w ([] ∷ ws) (_, (((e, _, _), _), _)) = absurd (e refl)
ends_in-join trailing c w ((d ∷ v) ∷ ws) (_, h) =
    ends_in-append b'/' b'/' (c ∷ w) (join trailing ((d ∷ v) ∷ ws))
    ∙ ends_in-join_slash trailing d v ws
    ∙ ends_in-join trailing d v ws h

-- What is rendered from plain segments is normalised already.
normalize_decoded-absolute :
    (s : RequestParser) (trailing : Bool) (ws : List Bytes)
    → All IsSegment ws
    → normalize_decoded s (render true trailing ws) ≡ (s, render true trailing ws)
normalize_decoded-absolute s trailing [] h =
    normalize_decoded-some s b'/' [] {parts = []} (rw split-slash (unfold resolve split in refl))
normalize_decoded-absolute s trailing ([] ∷ ws) (((e, _, _), _), _) = absurd (e refl)
normalize_decoded-absolute s trailing ((c ∷ w) ∷ ws) h =
    normalize_decoded-some s b'/' (join trailing ((c ∷ w) ∷ ws)) {parts = (c ∷ w) ∷ ws} (
      rw (split-slash, split-join trailing ((c ∷ w) ∷ ws) h)
        (skip ∙ resolve_of_IsSegment true [] ((c ∷ w) ∷ ws) h))
    ∙ ap (λ b. (s, render true b ((c ∷ w) ∷ ws)))
        (ends_in-join_slash trailing c w ws ∙ ends_in-join trailing c w ws h)
  where
    skip : resolve true [] ([] ∷ (c ∷ w) ∷ ws) ≡ resolve true [] ((c ∷ w) ∷ ws)
    skip = unfold resolve in refl

join-cons :
    (trailing : Bool) (c : ℕ) (w : Bytes) (ws : List Bytes)
    → (t : Bytes) × (join trailing ((c ∷ w) ∷ ws) ≡ c ∷ t)
join-cons trailing c w [] = (_, refl)
join-cons trailing c w (v ∷ ws) = (_, refl)

Without-head : (d c : ℕ) (w : Bytes) → Without d (c ∷ w) → (c == d) ≡ false
unfolding has_byte
Without-head d c w h = ground arith

normalize_decoded-relative :
    (s : RequestParser) (trailing : Bool) (ws : List Bytes)
    → All IsSegment ws
    → normalize_decoded s (render false trailing ws) ≡ (s, render false trailing ws)
normalize_decoded-relative s trailing [] h =
    normalize_decoded-some s b'/' [] {parts = []} (rw split-slash (unfold resolve split in refl))
normalize_decoded-relative s trailing ([] ∷ ws) (((e, _, _), _), _) = absurd (e refl)
normalize_decoded-relative s trailing ((c ∷ w) ∷ ws) h =
    let (t, e) = join-cons trailing c w ws in
    rw (or_slash-join, e)
      (normalize_decoded-some s c t {parts = (c ∷ w) ∷ ws} (found t e)
        ∙ ap (λ b. (s, render b (ends_in b'/' (c ∷ t)) ((c ∷ w) ∷ ws)))
            (Without-head b'/' c w h.0.1)
        ∙ ap (λ b. (s, render false b ((c ∷ w) ∷ ws)))
            (ap (ends_in b'/') (sym e) ∙ ends_in-join trailing c w ws h)
        ∙ ap (λ (x : Bytes). (s, x)) (or_slash-join trailing c w ws ∙ e))
  where
    found :
        (t : Bytes)
        → join trailing ((c ∷ w) ∷ ws) ≡ c ∷ t
        → resolve (c == b'/') [] (split b'/' (c ∷ t)) ≡ some ((c ∷ w) ∷ ws)
    found t e =
        rw (Without-head b'/' c w h.0.1, ← e, split-join trailing ((c ∷ w) ∷ ws) h)
          (resolve_of_IsSegment false [] ((c ∷ w) ∷ ws) h)

normalize_decoded-render :
    (s : RequestParser) (absolute trailing : Bool) (ws : List Bytes)
    → All IsSegment ws
    → normalize_decoded s (render absolute trailing ws) ≡ (s, render absolute trailing ws)
normalize_decoded-render s true = normalize_decoded-absolute s
normalize_decoded-render s false = normalize_decoded-relative s

normalize_decoded-nil : (s : RequestParser) → normalize_decoded s [] ≡ (s, [])
unfolding normalize_decoded
normalize_decoded-nil s = refl

-- Normalising a decoded target again changes nothing: what the first pass returns is a fixed point.
pub normalize_decoded_idempotent :
    (s s' : RequestParser) (t : Bytes)
    → normalize_decoded s' (normalize_decoded s t).1 ≡ (s', (normalize_decoded s t).1)
normalize_decoded_idempotent s s' [] = rw (normalize_decoded-nil, normalize_decoded-nil)
normalize_decoded_idempotent s s' (c ∷ t) =
    elim (Option-cases (resolve (c == b'/') [] (split b'/' (c ∷ t)))) [
      | inl e ↦ rw (normalize_decoded-none s c t e, normalize_decoded-nil)
      | inr (parts, e) ↦ rw (normalize_decoded-some s c t e) (
          normalize_decoded-render s' (c == b'/') (ends_in b'/' (c ∷ t)) parts (
            resolve-IsSegment (c == b'/') [] (split b'/' (c ∷ t)) parts tt
              (split-Without b'/' (c ∷ t)) e))
    ]
