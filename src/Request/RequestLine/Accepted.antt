-- ===== src/Request/RequestLine/Accepted.antt =====
-- What an accepted request line is.
use webserv_team.Base.{
  ℕ, ◌-◌, ◌≤◌, ◌≡◌, refl, ap, ◌∙◌, ◌⊎◌, inl, inr, Bool, true, false, List, [], ◌∷◌, arith, ltb,
  ◌==◌, if◌then◌else◌, Option-cases, Bytes, length, take, drop, =ᵇ_iff, cut,
}
use webserv_team.Utils.{split}
use webserv_team.Request.{RequestParser, at_headers, log_error}
use webserv_team.Request.Uri.{decode_percent_encoding, normalize_decoded, normalize_uri}
use webserv_team.Request.Lines.{find_line_end}
use webserv_team.Request.Setters.{
  one_of, methods, supported_version, set_http_method, set_request_uri, set_http_version,
  set_normalized, set_path, before_fragment, set_query_string,
}
use webserv_team.Request.Setters.Target.{IsTarget, set_request_uri-IsTarget}
use webserv_team.Request.RequestLine.{
  and_then, set_parts, after_parts, parse_request_line, max_request_line_length,
}

-- The three parts of the line are good.
pub record IsAccepted (s : RequestParser) : Type 0 where
  pub method : one_of s.http_method methods ≡ true
  pub target : IsTarget s.request_uri
  pub version : s.http_version ≡ supported_version

set_http_method_accepted :
    (s : RequestParser) (m : Bytes)
    → (set_http_method s m).1 ≡ true
    → (one_of m methods ≡ true) × (set_http_method s m ≡ (record s { http_method = m }, true))
unfolding set_http_method
set_http_method_accepted s m e = ground arith

set_http_version_accepted :
    (s : RequestParser) (v : Bytes)
    → (set_http_version s v).1 ≡ true
    → (v ≡ supported_version) × (set_http_version s v ≡ (record s { http_version = v }, true))
unfolding set_http_version
set_http_version_accepted s v e = ground (arith, =ᵇ_iff v supported_version)

-- The request target does not touch the method.
log_error_method : (s : RequestParser) (code : ℕ) → (log_error s code).http_method ≡ s.http_method
unfolding log_error
log_error_method s code = ground arith

decode_method :
    (s : RequestParser) (u : Bytes) → (decode_percent_encoding s u).0.http_method ≡ s.http_method
unfolding decode_percent_encoding
decode_method s u = ground (arith, log_error_method s 400)

normalize_decoded_method :
    (s : RequestParser) (u : Bytes) → (normalize_decoded s u).0.http_method ≡ s.http_method
unfolding normalize_decoded
normalize_decoded_method s [] = refl
normalize_decoded_method s (c ∷ u) = ground (arith, log_error_method s 400)

normalize_uri_method :
    (s : RequestParser) (u : Bytes) → (normalize_uri s u).0.http_method ≡ s.http_method
unfolding normalize_uri
normalize_uri_method s u = normalize_decoded_method _ _ ∙ decode_method s u

set_path_method :
    (s : RequestParser) (path : Bytes) → (set_path s path).0.http_method ≡ s.http_method
unfolding set_path
set_path_method s path = ground (arith, log_error_method s 400, log_error_method s 414)

set_normalized_method :
    (s : RequestParser) (u : Bytes) → (set_normalized s u).0.http_method ≡ s.http_method
unfolding set_normalized
set_normalized_method s [] = refl
set_normalized_method s (c ∷ u) = elim (Option-cases (cut b'?' (c ∷ u))) [
  | inl e ↦ rw (e, set_normalized) (set_path_method s (c ∷ u))
  | inr ((path, query), e) ↦
      rw (e, set_normalized) (set_path_method (set_query_string s query) path)
]

set_request_uri_method :
    (s : RequestParser) (u : Bytes) → (set_request_uri s u).0.http_method ≡ s.http_method
unfolding set_request_uri
set_request_uri_method s u =
    let n = normalize_uri s (before_fragment u) in
    ground (
      arith,
      log_error_method s 400,
      set_normalized_method n.0 n.1,
      normalize_uri_method s (before_fragment u),
    )

set_http_version_keeps :
    (s : RequestParser) (v : Bytes)
    → (set_http_version s v).1 ≡ true
    → IsAccepted (record s { http_version = supported_version })
    → IsAccepted (set_http_version s v).0
set_http_version_keeps s v e h =
    let (same, result) = set_http_version_accepted s v e in rw (result, same) h

and_then_accepted :
    (r : RequestParser × Bool) (next : RequestParser → RequestParser × Bool)
    → (and_then r next).1 ≡ true
    → (r.1 ≡ true) × (and_then r next ≡ next r.0)
and_then_accepted (s, true) next e = (refl, refl)
and_then_accepted (s, false) next e = cc

set_parts-IsAccepted :
    (s : RequestParser) (parts : List Bytes)
    → (set_parts s parts).1 ≡ true
    → IsAccepted (set_parts s parts).0
unfolding set_parts
set_parts-IsAccepted s (m ∷ u ∷ v ∷ []) e =
    let named = set_http_method s m in
    let two = and_then named (λ t. set_request_uri t u) in
    let (ok_two, last) = and_then_accepted two (λ t. set_http_version t v) e in
    let (ok_one, middle) = and_then_accepted named (λ t. set_request_uri t u) ok_two in
    let (good_method, first) = set_http_method_accepted s m ok_one in
    let start : RequestParser = record s { http_method = m } in
    let targeted : two ≡ set_request_uri start u =
      middle ∙ ap (λ (r : RequestParser × Bool). set_request_uri r.0 u) first in
    let good_target = set_request_uri-IsTarget start u (rw targeted at ok_two) in
    let kept = set_request_uri_method start u in
    rw last (
      set_http_version_keeps two.0 v (rw last at e) (
        rw targeted
          (record { method = rw kept good_method; target = good_target; version = refl })))
set_parts-IsAccepted s _ e = cc

-- What a call comes to: nothing is consumed, or the whole line is and its parts are good.
abbrev pub Consumes : Bytes → RequestParser × Bytes → Type 0
Consumes pos (s, rest) =
    (rest ≡ pos)
    ⊎ (IsAccepted s
        × (s.state ≡ at_headers)
        × (rest ≡ drop (find_line_end pos) pos)
        × (find_line_end pos ≤ max_request_line_length))

after_parts-Consumes :
    (r : RequestParser × Bool) (pos : Bytes)
    → (r.1 ≡ true → IsAccepted r.0)
    → find_line_end pos ≤ max_request_line_length
    → Consumes pos (after_parts r pos (drop (find_line_end pos) pos))
after_parts-Consumes (s, true) pos h k =
    let a = h refl in
    inr (record { method = a.method; target = a.target; version = a.version }, refl, refl, k)
after_parts-Consumes (s, false) pos h k = inl refl

-- A request line is consumed only if its method is implemented, its target was accepted and its
-- version is HTTP/1.1. Then the parser goes on to the headers, right behind the line, and the line was
-- no longer than the limit.
pub parse_request_line-Consumes :
    (s : RequestParser) (pos : Bytes) → Consumes pos (parse_request_line s pos)
unfolding parse_request_line
parse_request_line-Consumes s pos = waiting (find_line_end pos == length pos)
  where
    parsed : RequestParser × Bytes
    parsed =
        after_parts (set_parts s (split b' ' (take (find_line_end pos - 2) pos))) pos
          (drop (find_line_end pos) pos)

    bounded :
        (b : Bool)
        → ltb max_request_line_length (find_line_end pos) ≡ b
        → Consumes pos (if b then (log_error s 414, pos) else parsed)
    bounded true e = inl refl
    bounded false e =
        after_parts-Consumes (set_parts s (split b' ' (take (find_line_end pos - 2) pos))) pos
          (set_parts-IsAccepted s _) (ground arith)

    waiting :
        (b : Bool)
        → Consumes pos (
            if b
            then (s, pos)
            else if ltb max_request_line_length (find_line_end pos)
            then (log_error s 414, pos)
            else parsed)
    waiting true = inl refl
    waiting false = bounded (ltb max_request_line_length (find_line_end pos)) refl
