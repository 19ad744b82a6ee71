-- ===== src/Request/Headers/Checks.antt =====
-- What the flags of the header loop say of the stored headers.
use mathlib.Core.Path.{subst}
use webserv_team.Base.{
  ℕ, ◌≤◌, ◌<◌, ◌≡◌, refl, inl, inr, Bool, true, false, not, ◌&&◌, ◌||◌, Option, none, some, arith,
  if◌then◌else◌, Bool-cases, Bytes, codes, length, ◌=ᵇ◌, =ᵇ_iff,
}
use webserv_team.Dict.{Dict, lookup, insert, has_key, lookup-insert, length-insert}
use webserv_team.Utils.{is_numeric}
use webserv_team.Request.{RequestParser, ParseState, at_headers, at_body, done, log_error}
use webserv_team.Request.Headers.Field.{
  Scan, Checked, go, stop, ◌>>=◌, is_transfer_coding, ◌>>=◌, split_field, check_names,
  check_content_length, check_transfer_encoding, check_host, check_expect, store_field, check_field,
  parse_field, max_header_count,
}

abbrev pub implies : Bool → Bool → Bool
implies a b = not a || b

abbrev pub passes : (Bytes → Bool) → Option Bytes → Bool
passes test none = false
passes test (some v) = test v

abbrev pub host : Bytes
host = codes "host"

abbrev pub content_length : Bytes
content_length = codes "content-length"

abbrev pub transfer_encoding : Bytes
transfer_encoding = codes "transfer-encoding"

-- The value that the header `k` will have once the field is stored passes the test. It is known of the
-- field only if the field was checked.
abbrev will_pass : Bool → Bytes → Bytes → (Bytes → Bool) → Bytes → Dict → Bool
will_pass checked key value test k m =
    if checked && key =ᵇ k then test value else passes test (lookup k m)

-- The flags are backed by the stored headers, with the field `key: value` about to be stored. The two
-- Booleans say which checks the field has passed.
record IsPending (key value : Bytes) (sized_checked coded_checked : Bool) (sc : Scan) : Type 0 where
  hosted : implies sc.has_host (has_key host sc.parser.headers || key =ᵇ host) ≡ true
  sized :
      implies sc.parser.has_content_length
        (will_pass sized_checked key value is_numeric content_length sc.parser.headers)
      ≡ true
  coded :
      implies sc.parser.has_transfer_encoding
        (will_pass coded_checked key value is_transfer_coding transfer_encoding sc.parser.headers)
      ≡ true

-- The flags are backed by the stored headers, of which there are not too many.
pub record IsBacked (sc : Scan) : Type 0 where
  pub hosted : implies sc.has_host (has_key host sc.parser.headers) ≡ true
  pub sized :
      implies sc.parser.has_content_length
        (passes is_numeric (lookup content_length sc.parser.headers))
      ≡ true
  pub coded :
      implies sc.parser.has_transfer_encoding
        (passes is_transfer_coding (lookup transfer_encoding sc.parser.headers))
      ≡ true
  pub few : length sc.parser.headers ≤ max_header_count

-- The parser is still at its headers, and the flags are backed.
abbrev Pending : Bytes → Bytes → Bool → Bool → Scan → Type 0
Pending key value sized_checked coded_checked sc =
    IsPending key value sized_checked coded_checked sc
    × (sc.parser.state ≡ at_headers)
    × (length sc.parser.headers ≤ max_header_count)

abbrev pub Backed : Scan → Type 0
Backed sc = IsBacked sc × (sc.parser.state ≡ at_headers)

-- The headers are read: the body comes next, or the request is complete.
abbrev pub is_read : ParseState → Bool
is_read at_body = true
is_read done = true
is_read _ = false

-- A check that lets the loop go on keeps `P`; one that stops it leaves the headers unread.
abbrev pub Holds : {A : Type 0} → (A → Type 0) → Checked A → Type 0
Holds P (go a) = P a
Holds P (stop p) = is_read p.state ≡ false

Holds-intro :
    {A : Type 0} (P : A → Type 0) (m : Checked A)
    → ((a : A) → m ≡ go a → P a)
    → ((p : RequestParser) → m ≡ stop p → is_read p.state ≡ false)
    → Holds P m
Holds-intro P (go a) h k = h a refl
Holds-intro P (stop p) h k = k p refl

Holds-bind :
    {A B : Type 0} (P : A → Type 0) (Q : B → Type 0) (m : Checked A) (f : A → Checked B)
    → Holds P m
    → ((a : A) → P a → Holds Q (f a))
    → Holds Q (m >>= f)
Holds-bind P Q (go a) f h k = k a h
Holds-bind P Q (stop p) f h k = h

pub log_error_unread :
    (s : RequestParser) (code : ℕ) → s.state ≡ at_headers → is_read (log_error s code).state ≡ false
unfolding log_error
log_error_unread s code e = ground arith

module _ (key value : Bytes) where
  start-Pending : (sc : Scan) → Backed sc → Pending key value false false sc
  start-Pending sc (b, e) =
      (record { hosted = ground (arith, b.hosted); sized = b.sized; coded = b.coded }, e, b.few)

  check_names-Pending :
      (sc : Scan)
      → Pending key value false false sc
      → Holds (Pending key value false false) (check_names sc key value)
  unfolding check_names
  check_names-Pending sc (p, e, h) =
      Holds-intro (Pending key value false false) (check_names sc key value) (λ a k. ground arith)
        (λ q k. ground (arith, log_error_unread sc.parser 400 e))

  check_content_length-Pending :
      (sc : Scan)
      → Pending key value false false sc
      → Holds (Pending key value true false) (check_content_length key value sc)
  unfolding check_content_length
  check_content_length-Pending sc (p, e, h) =
      Holds-intro (Pending key value true false) (check_content_length key value sc)
        (λ a k. ground arith) (λ q k. ground (arith, log_error_unread sc.parser 400 e))

  check_transfer_encoding-Pending :
      (sc : Scan)
      → Pending key value true false sc
      → Holds (Pending key value true true) (check_transfer_encoding key value sc)
  unfolding check_transfer_encoding
  check_transfer_encoding-Pending sc (p, e, h) =
      Holds-intro (Pending key value true true) (check_transfer_encoding key value sc)
        (λ a k. ground arith) (λ q k. ground (arith, log_error_unread sc.parser 400 e))

  check_host-Pending :
      (sc : Scan)
      → Pending key value true true sc
      → Holds (Pending key value true true) (check_host key sc)
  unfolding check_host
  check_host-Pending sc (p, e, h) =
      Holds-intro (Pending key value true true) (check_host key sc) (λ a k. ground arith)
        (λ q k. ground (arith, log_error_unread sc.parser 400 e))

  -- Only the value of `expect` is changed.
  check_expect-value :
      (sc : Scan)
      → sc.parser.state ≡ at_headers
      → Holds (λ v. key =ᵇ codes "expect" ≡ false → v ≡ value) (check_expect key value sc)
  unfolding check_expect
  check_expect-value sc e =
      Holds-intro (λ v. key =ᵇ codes "expect" ≡ false → v ≡ value) (check_expect key value sc)
        (λ a k other. ground arith) (λ q k. ground (arith, log_error_unread sc.parser 417 e))

  other_key : (a b : Bytes) → (a =ᵇ b) ≡ false → (key =ᵇ a) ≡ true → (key =ᵇ b) ≡ false
  other_key a b h k = ground (arith, =ᵇ_iff key a)

  -- A flag is backed once the field is stored.
  insert-backed :
      (flag : Bool) (test : Bytes → Bool) (k v : Bytes) (m : Dict)
      → implies flag (will_pass true key value test k m) ≡ true
      → ((key =ᵇ k) ≡ true → v ≡ value)
      → implies flag (passes test (lookup k (insert key v m))) ≡ true
  insert-backed flag test k v m h same = elim (Bool-cases (key =ᵇ k)) [
    | inl e ↦ rw (lookup-insert, same e, e) (rw e at h)
    | inr e ↦ rw (lookup-insert, e) (rw e at h)
  ]

  insert-backed_key :
      (flag : Bool) (k v : Bytes) (m : Dict)
      → implies flag (has_key k m || key =ᵇ k) ≡ true
      → implies flag (has_key k (insert key v m)) ≡ true
  insert-backed_key flag k v m h = ground (arith, lookup-insert key k v m)

  stored : Scan → Bytes → Scan
  stored sc v = record sc {
    parser = record (sc.parser) { headers = insert key v sc.parser.headers };
  }

  stored-Backed :
      (sc : Scan) (v : Bytes)
      → Pending key value true true sc
      → (key =ᵇ codes "expect" ≡ false → v ≡ value)
      → length sc.parser.headers < max_header_count
      → Backed (stored sc v)
  unfolding stored ◌=ᵇ◌
  stored-Backed sc v (p, e, h) same few = (
    record {
      hosted = insert-backed_key sc.has_host host v sc.parser.headers p.hosted;
      sized =
          insert-backed sc.parser.has_content_length is_numeric content_length v sc.parser.headers
            p.sized (λ k. same (other_key content_length (codes "expect") refl k));
      coded =
          insert-backed sc.parser.has_transfer_encoding is_transfer_coding transfer_encoding v
            sc.parser.headers p.coded
            (λ k. same (other_key transfer_encoding (codes "expect") refl k));
      few = omega (arith, length-insert key v sc.parser.headers);
    },
    e,
  )

  store_field-Backed :
      (sc : Scan) (v : Bytes)
      → Pending key value true true sc
      → (key =ᵇ codes "expect" ≡ false → v ≡ value)
      → Holds Backed (store_field key v sc)
  unfolding store_field stored
  store_field-Backed sc v (p, e, h) same =
      Holds-intro Backed (store_field key v sc)
        (λ a k.
          let few : length sc.parser.headers < max_header_count = ground arith in
          let is : stored sc v ≡ a = ground arith in
          subst Backed is (stored-Backed sc v (p, e, h) same few))
        (λ q k. ground (arith, log_error_unread sc.parser 431 e))

  check_field-Backed : (sc : Scan) → Backed sc → Holds Backed (check_field sc key value)
  unfolding check_field
  check_field-Backed sc b =
      Holds-bind (Pending key value false false) Backed _ _
        (check_names-Pending sc (start-Pending sc b))
        λ named p1.
          Holds-bind (Pending key value true false) Backed _ _
            (check_content_length-Pending named p1)
            λ sized p2.
              Holds-bind (Pending key value true true) Backed _ _
                (check_transfer_encoding-Pending sized p2)
                λ coded p3.
                  Holds-bind (Pending key value true true) Backed _ _ (check_host-Pending coded p3)
                    λ hosted p4.
                      Holds-bind (λ v. key =ᵇ codes "expect" ≡ false → v ≡ value) Backed _ _
                        (check_expect-value hosted p4.1)
                        λ v same. store_field-Backed hosted v p4 same

-- A header line that is let through leaves the flags backed.
pub parse_field-Backed : (sc : Scan) (line : Bytes) → Backed sc → Holds Backed (parse_field sc line)
unfolding parse_field
parse_field-Backed sc line b =
    Holds-bind (λ _. Unit {0}) Backed (split_field sc line) _ (split_field-Holds)
      (λ field _. check_field-Backed field.0 field.1 sc b)
  where
    split_field-Holds : Holds (λ _. Unit {0}) (split_field sc line)
    split_field-Holds =
        Holds-intro (λ _. Unit {0}) (split_field sc line) (λ a k. tt)
          (λ q k. unfold split_field in ground (arith, log_error_unread sc.parser 400 b.1))
