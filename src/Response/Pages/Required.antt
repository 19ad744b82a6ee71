-- ===== src/Response/Pages/Required.antt =====
-- The framing headers of a response.
use webserv_team.Base.{
  ◌≡◌, refl, sym, ap, ◌∙◌, Bool, true, false, not, ◌&&◌, none, some, arith, ◌==◌, if◌then◌else◌,
  Bytes, codes, length, ◌=ᵇ◌,
}
use webserv_team.Dict.{lookup, has_key, lookup-insert, lookup-insert_self}
use webserv_team.Response.{Os, ResponseBuilder, set_headers, to_string}
use webserv_team.Response.Pages.{
  include_required_headers, add_content_type, add_framing, add_connection, add_allow, content_type,
  join_methods, webserv_name,
}

-- Two responses that have the same body and differ only in headers other than `k`.
record SameAt (k : Bytes) (r s : ResponseBuilder) : Type 0 where
  same_body : r.body ≡ s.body
  same_header : lookup k r.headers ≡ lookup k s.headers

SameAt-self : (k : Bytes) (r : ResponseBuilder) → SameAt k r r
SameAt-self k r = record { same_body = refl; same_header = refl }

SameAt-set_headers :
    (k j v : Bytes) (r : ResponseBuilder) → (j =ᵇ k) ≡ false → SameAt k (set_headers j v r) r
unfolding set_headers
SameAt-set_headers k j v r e = record {
  same_body = refl;
  same_header = ground (arith, lookup-insert j k v r.headers);
}

SameAt-if :
    (k : Bytes) (b : Bool) (x y r : ResponseBuilder)
    → SameAt k x r
    → SameAt k y r
    → SameAt k (if b then x else y) r
SameAt-if k true x y r p q = p
SameAt-if k false x y r p q = q

SameAt-trans : (k : Bytes) {x y z : ResponseBuilder} → SameAt k x y → SameAt k y z → SameAt k x z
SameAt-trans k p q = record {
  same_body = p.same_body ∙ q.same_body;
  same_header = p.same_header ∙ q.same_header;
}

SameAt-content_type :
    (k : Bytes) (r : ResponseBuilder)
    → (content_type =ᵇ k) ≡ false
    → SameAt k (add_content_type r) r
unfolding add_content_type
SameAt-content_type k r e =
    SameAt-if k _ r _ r (SameAt-self k r) (SameAt-set_headers k content_type _ r e)

SameAt-connection :
    (k : Bytes) (r : ResponseBuilder)
    → (codes "Connection" =ᵇ k) ≡ false
    → SameAt k (add_connection r) r
unfolding add_connection
SameAt-connection k r e =
    SameAt-if k _ r _ r (SameAt-self k r) (SameAt-set_headers k (codes "Connection") _ r e)

SameAt-allow :
    (k : Bytes) (r : ResponseBuilder) → (codes "Allow" =ᵇ k) ≡ false → SameAt k (add_allow r) r
unfolding add_allow
SameAt-allow k r e =
    elim r.location_config
      as (λ c.
        SameAt k
          (elim c as (λ _. ResponseBuilder) [
            | none ↦ r
            | some l ↦
                if r.status_code == 405 && not (has_key (codes "Allow") r.headers)
                then set_headers (codes "Allow") (join_methods l.allowed_methods) r
                else r
          ])
          r) [
            | none ↦ SameAt-self k r
            | some l ↦
                SameAt-if k _ _ r r (SameAt-set_headers k (codes "Allow") _ r e) (SameAt-self k r)
          ]

set_headers-if :
    (k v : Bytes) (r x : ResponseBuilder) (b : Bool)
    → b ≡ false
    → lookup k (if b then x else set_headers k v r).headers ≡ some v
unfolding set_headers
set_headers-if k v r x true e = ground arith
set_headers-if k v r x false e = lookup-insert_self k v r.headers

body-framing : (r : ResponseBuilder) → (add_framing r).body ≡ r.body
unfolding add_framing set_headers
body-framing r = ground arith

framing :
    (r : ResponseBuilder)
    → has_key (codes "Transfer-Encoding") r.headers ≡ false
    → lookup (codes "Content-Length") (add_framing r).headers ≡ some (to_string (length r.body))
unfolding add_framing
framing r e = set_headers-if (codes "Content-Length") (to_string (length r.body)) r _ _ e

pub record IsFramed (r : ResponseBuilder) : Type 0 where
  pub length_told : lookup (codes "Content-Length") r.headers ≡ some (to_string (length r.body))

-- A response without a header `Transfer-Encoding` gets a `Content-Length` that is the length of its
-- body, in decimal, and keeps its body.
pub include_required_headers-IsFramed :
    {W : Type 0} (os : Os W) (w : W) (r : ResponseBuilder)
    → has_key (codes "Transfer-Encoding") r.headers ≡ false
    → IsFramed (include_required_headers os w r) × ((include_required_headers os w r).body ≡ r.body)
unfolding include_required_headers content_type ◌=ᵇ◌
include_required_headers-IsFramed os w r e =
    let r₁ = set_headers (codes "Server") webserv_name r in
    let r₂ = set_headers (codes "Date") (os.http_date w) r₁ in
    let r₃ = add_content_type r₂ in
    let before : (k : Bytes)
        → (codes "Server" =ᵇ k) ≡ false
        → (codes "Date" =ᵇ k) ≡ false
        → (content_type =ᵇ k) ≡ false
        → SameAt k r₃ r =
      λ k p q s. SameAt-trans k (SameAt-content_type k r₂ s) (
        SameAt-trans k (SameAt-set_headers k (codes "Date") (os.http_date w) r₁ q)
          (SameAt-set_headers k (codes "Server") webserv_name r p)) in
    let same = before (codes "Transfer-Encoding") refl refl refl in
    let untold : has_key (codes "Transfer-Encoding") r₃.headers ≡ false =
      ap (λ o. elim o [ none ↦ false | some _ ↦ true ]) same.same_header ∙ e in
    let r₄ = add_framing r₃ in
    let after =
      SameAt-trans (codes "Content-Length")
        (SameAt-allow (codes "Content-Length") (add_connection r₄) refl)
        (SameAt-connection (codes "Content-Length") r₄ refl) in
    let told : lookup (codes "Content-Length") r₄.headers ≡ some (to_string (length r₃.body)) =
      framing r₃ untold in
    let kept = after.same_body ∙ body-framing r₃ in
    (
      record {
        length_told = after.same_header ∙ told ∙ ap (λ b. some (to_string (length b))) (sym kept);
      },
      kept ∙ same.same_body,
    )
