-- ===== src/Request/Setters/Parent.antt =====
-- The target that is let through by mistake: a last segment ".." in front of a query.
use mathlib.Core.List.{append-nil}
use webserv_team.Base.{
  ℕ, ◌≡◌, refl, ap, ◌∙◌, Bool, true, false, not, ◌&&◌, none, [], ◌∷◌, ◌++◌, arith, ◌==◌, Bytes,
  codes, All, ◌=ᵇ◌, has_byte, cut,
}
use webserv_team.Utils.{split}
use webserv_team.Utils.Laws.{Without, split-last}
use webserv_team.Request.{RequestParser}
use webserv_team.Request.Uri.{
  decode, text, decode_percent_encoding, normalize_decoded, normalize_uri, resolve,
}
use webserv_team.Request.Uri.Segments.{normalize_decoded-some, split-slash}
use webserv_team.Request.Uri.Idempotent.{ends_in-Without}
use webserv_team.Request.Setters.{
  invalid_bytes, is_control, has_invalid, has_control, before_fragment, set_path, set_normalized,
  set_request_uri,
}

-- A byte that the parser takes as it is: it is not refused, is no escape and begins no fragment.
abbrev pub is_plain_byte : ℕ → Bool
is_plain_byte c =
    not (has_byte c invalid_bytes) && not (is_control c) && not (c == b'%') && not (c == b'#')

-- Such bytes, and no slash.
abbrev pub IsPlainText : Bytes → Type 0
IsPlainText = All (λ c. (is_plain_byte c ≡ true) × ((c == b'/') ≡ false))

pub has_invalid_plain : (s : Bytes) → IsPlainText s → has_invalid s ≡ false
unfolding has_invalid
has_invalid_plain [] h = refl
has_invalid_plain (c ∷ s) ((p, q), h) = ground (arith, has_invalid_plain s h)

pub has_control_plain : (s : Bytes) → IsPlainText s → has_control s ≡ false
unfolding has_control
has_control_plain [] h = refl
has_control_plain (c ∷ s) ((p, q), h) = ground (arith, has_control_plain s h)

decode_plain : (s : Bytes) → IsPlainText s → decode s ≡ text s
unfolding decode
decode_plain [] h = refl
decode_plain (c ∷ []) h = refl
decode_plain (c ∷ (d ∷ [])) h = refl
decode_plain (c ∷ (d ∷ (e ∷ s))) ((p, q), h) = ground (arith, decode_plain (d ∷ (e ∷ s)) h)

cut_plain : (s : Bytes) → IsPlainText s → cut b'#' s ≡ none
unfolding cut
cut_plain [] h = refl
cut_plain (c ∷ s) ((p, q), h) = ground (arith, cut_plain s h)

Without-plain : (s : Bytes) → IsPlainText s → Without b'/' s
unfolding has_byte
Without-plain [] h = refl
Without-plain (c ∷ s) ((p, q), h) = ground (arith, Without-plain s h)

parent_text : (q : Bytes) → IsPlainText q → IsPlainText (codes "..?" ++ q)
unfolding has_byte is_control
parent_text q h = ((refl, refl), ((refl, refl), ((refl, refl), h)))

parent_has_invalid : (q : Bytes) → has_invalid (codes "/..?" ++ q) ≡ has_invalid q
unfolding has_invalid has_byte
parent_has_invalid q = refl

parent_has_control : (q : Bytes) → has_control (codes "/..?" ++ q) ≡ has_control q
unfolding has_control is_control
parent_has_control q = refl

before_fragment_plain : (s : Bytes) → IsPlainText s → before_fragment (b'/' ∷ s) ≡ b'/' ∷ s
unfolding before_fragment cut
before_fragment_plain s h = ground (arith, cut_plain s h)

normalize_decoded-parent :
    (s : RequestParser) (q : Bytes)
    → IsPlainText q
    → normalize_decoded s (codes "/..?" ++ q) ≡ (s, codes "/..?" ++ q)
normalize_decoded-parent s q h =
    normalize_decoded-some s b'/' (codes "..?" ++ q) {parts = (codes "..?" ++ q) ∷ []}
      (rw pieces (unfold resolve ◌=ᵇ◌ in refl))
    ∙ rw (
      ends_in-Without b'/' b'.' (codes ".?" ++ q)
          (Without-plain (codes "..?" ++ q) (parent_text q h)),
      append-nil,
    )
  where
    pieces : split b'/' (codes "/..?" ++ q) ≡ [] ∷ (codes "..?" ++ q) ∷ []
    pieces =
        split-slash (codes "..?" ++ q)
        ∙ ap (◌∷◌ []) (
            split-last b'/' b'.' (codes ".?" ++ q)
              (Without-plain (codes "..?" ++ q) (parent_text q h)))

decode-parent : (q : Bytes) → IsPlainText q → decode (codes "/..?" ++ q) ≡ text (codes "/..?" ++ q)
unfolding decode
decode-parent q h = ground (arith, decode_plain (codes "..?" ++ q) (parent_text q h))

normalize_uri-parent :
    (s : RequestParser) (q : Bytes)
    → IsPlainText q
    → normalize_uri s (codes "/..?" ++ q) ≡ (s, codes "/..?" ++ q)
unfolding normalize_uri decode_percent_encoding
normalize_uri-parent s q h = ground (arith, decode-parent q h, normalize_decoded-parent s q h)

set_normalized-parent :
    (s : RequestParser) (q : Bytes)
    → set_normalized s (codes "/..?" ++ q)
      ≡ (record s { query_string = q; request_uri = codes "/.." }, true)
unfolding set_normalized set_path cut
set_normalized-parent s q = refl

-- A target "/..?" followed by a query without a slash, an escape, a "#" or a byte that the parser
-- refuses is accepted, with "/.." as its path and the query as its query: the segments are checked
-- while the query still stands behind them, and then the query is cut off.
pub set_request_uri_parent :
    (s : RequestParser) (query : Bytes)
    → IsPlainText query
    → set_request_uri s (codes "/..?" ++ query)
      ≡ (record s { query_string = query; request_uri = codes "/.." }, true)
unfolding set_request_uri
set_request_uri_parent s query h =
    rw
      (
        parent_has_invalid,
        has_invalid_plain query h,
        parent_has_control,
        has_control_plain query h,
        before_fragment_plain (codes "..?" ++ query) (parent_text query h),
        normalize_uri-parent s query h,
      )
      (set_normalized-parent s query)
