-- ===== src/Request/Headers/Field.antt =====
-- One round of the loop of `parse_headers`: the checks on a header line, in their order.
use webserv_team.Base.{
  ℕ, Bool, true, not, ◌&&◌, ◌||◌, none, some, [], ◌∷◌, map, leb, ◌==◌, if◌then◌else◌, Bytes, codes,
  length, is_empty, ◌=ᵇ◌, cut, ends_in,
}
use webserv_team.Dict.{insert}
use webserv_team.Libc.{is_alnum, to_lower, char_lt}
use webserv_team.Utils.{trim, is_numeric}
use webserv_team.Request.{RequestParser, log_error}

-- The variables of the loop; `content_length` is its local `content_length_value`.
pub record Scan : Type 0 where
  pub parser : RequestParser
  pub has_host : Bool
  pub content_length : Bytes

-- A check lets the loop go on, or logs an error and returns.
pub data Checked {ℓ} (A : Type ℓ) : Type ℓ where
  go : A → Checked A
  stop : RequestParser → Checked A

infixl 5 ◌>>=◌
abbrev pub ◌>>=◌ {ℓ κ} : {A : Type ℓ} {B : Type κ} → Checked A → (A → Checked B) → Checked B
go a >>= f = f a
stop p >>= f = stop p

abbrev pub refuse {ℓ} : {A : Type ℓ} → Scan → ℕ → Checked A
refuse sc code = stop (log_error sc.parser code)

unfoldable pub is_valid_header_name : Bytes → Bool
is_valid_header_name [] = true
is_valid_header_name (c ∷ s) = (is_alnum c || c == b'-' || c == b'_') && is_valid_header_name s

unfoldable pub is_valid_header_value : Bytes → Bool
is_valid_header_value [] = true
is_valid_header_value (c ∷ s) =
    not ((char_lt c 32 || c == 127) && not (c == 9) && not (c == b' ')) && is_valid_header_value s

abbrev blanks : Bytes
blanks = b' ' ∷ 9 ∷ []

-- The key in lower case and the trimmed value.
unfoldable pub split_field : Scan → Bytes → Checked (Bytes × Bytes)
split_field sc line = elim (cut b':' line) [
  | none ↦ refuse sc 400
  | some (key, value) ↦
      if is_empty key || ends_in b' ' key
      then refuse sc 400
      else go (map to_lower key, trim value blanks)
]

unfoldable pub check_names : Scan → Bytes → Bytes → Checked Scan
check_names sc key value =
    if not (is_valid_header_name key) || not (is_valid_header_value value)
    then refuse sc 400
    else go sc

unfoldable pub check_content_length : Bytes → Bytes → Scan → Checked Scan
check_content_length key value sc =
    let s = sc.parser in
    if key =ᵇ codes "content-length"
    then (if not (is_numeric value) || (s.has_content_length && not (sc.content_length =ᵇ value))
        then refuse sc 400
        else go
            (record sc { parser = record s { has_content_length = true }; content_length = value }))
    else go sc

unfoldable pub is_transfer_coding : Bytes → Bool
is_transfer_coding value =
    value =ᵇ codes "chunked"
    || value =ᵇ codes "compress"
    || value =ᵇ codes "deflate"
    || value =ᵇ codes "gzip"

unfoldable pub check_transfer_encoding : Bytes → Bytes → Scan → Checked Scan
check_transfer_encoding key value sc =
    if key =ᵇ codes "transfer-encoding"
    then (if is_transfer_coding value
        then go (record sc { parser = record (sc.parser) { has_transfer_encoding = true } })
        else refuse sc 400)
    else go sc

unfoldable pub check_host : Bytes → Scan → Checked Scan
check_host key sc =
    if key =ᵇ codes "host"
    then (if sc.has_host then refuse sc 400 else go (record sc { has_host = true }))
    else go sc

-- The value is put in lower case here.
unfoldable pub check_expect : Bytes → Bytes → Scan → Checked Bytes
check_expect key value sc =
    if key =ᵇ codes "expect"
    then (if map to_lower value =ᵇ codes "100-continue"
        then go (map to_lower value)
        else refuse sc 417)
    else go value

abbrev pub max_header_count : ℕ
max_header_count = 100

unfoldable pub store_field : Bytes → Bytes → Scan → Checked Scan
store_field key value sc =
    let s = sc.parser in
    if leb max_header_count (length s.headers)
    then refuse sc 431
    else go (record sc { parser = record s { headers = insert key value s.headers } })

-- All the checks on one field.
unfoldable pub check_field : Scan → Bytes → Bytes → Checked Scan
check_field sc key value = do
  named ← check_names sc key value
  sized ← check_content_length key value named
  coded ← check_transfer_encoding key value sized
  hosted ← check_host key coded
  expected ← check_expect key value hosted
  store_field key expected hosted

unfoldable pub parse_field : Scan → Bytes → Checked Scan
parse_field sc line = do field ← split_field sc line; check_field sc field.0 field.1
