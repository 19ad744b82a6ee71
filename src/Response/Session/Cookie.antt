-- ===== src/Response/Session/Cookie.antt =====
-- What `get_cookie` finds.
use webserv_team.Base.{
  ℕ, ◌+◌, ◌≡◌, refl, sym, ap, ◌∙◌, true, false, some, [], ◌∷◌, ◌++◌, arith, ==_iff, Bytes, codes,
  length, is_empty, drop, length-append, drop-append, has_byte, cut, starts_with, find,
}
use webserv_team.Dict.{lookup}
use webserv_team.Request.{RequestParser}
use webserv_team.Response.Session.{get_cookie, up_to_semicolon}

starts_with-append : (p s : Bytes) → starts_with p (p ++ s) ≡ true
unfolding starts_with
starts_with-append [] s = refl
starts_with-append (c ∷ p) s = ground (arith, starts_with-append p s, ==_iff c c)

find-append : (c : ℕ) (p s : Bytes) → find (c ∷ p) (c ∷ p ++ s) ≡ some 0
unfolding find
find-append c p s = ground (arith, starts_with-append (c ∷ p) s)

cut-none : (c : ℕ) (v s : Bytes) → has_byte c v ≡ false → cut c (v ++ c ∷ s) ≡ some (v, s)
unfolding cut has_byte
cut-none c [] s e = ground (arith, ==_iff c c)
cut-none c (x ∷ v) s e = ground (arith, cut-none c v s)

append-snoc : (p : Bytes) (c : ℕ) (s : Bytes) → (p ++ c ∷ []) ++ s ≡ p ++ c ∷ s
append-snoc [] c s = refl
append-snoc (x ∷ p) c s = ap (λ t. x ∷ t) (append-snoc p c s)

-- A cookie that stands first in the header and that another one follows is read back: its value is
-- the text between `=` and the first `;`.
pub get_cookie-first :
    (request : RequestParser) (name v others : Bytes)
    → is_empty name ≡ false
    → has_byte b';' v ≡ false
    → lookup (codes "cookie") request.headers ≡ some (name ++ b'=' ∷ (v ++ b';' ∷ others))
    → get_cookie request name ≡ v
unfolding get_cookie up_to_semicolon
get_cookie-first request (c ∷ name) v others some_name clean given =
    let key = c ∷ name ++ b'=' ∷ [] in
    let text = v ++ b';' ∷ others in
    let whole : lookup (codes "cookie") request.headers ≡ some (key ++ text) =
      given ∙ ap some (sym (append-snoc (c ∷ name) b'=' text)) in
    let found = find-append c (name ++ b'=' ∷ []) text in
    let value : drop (length key) (key ++ text) ≡ text = drop-append key text in
    let size : length key ≡ length (c ∷ name) + 1 = length-append (c ∷ name) (b'=' ∷ []) in
    let apart = cut-none b';' v others clean in ground arith
get_cookie-first request [] v others some_name clean given = ground arith
