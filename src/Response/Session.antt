-- ===== src/Response/Session.antt =====
-- srcs/SessionCookie/SessionCookieHandler.cpp.
pub mod Cookie
use webserv_team.Base.{
  ℕ, zero, suc, ◌+◌, ◌-◌, ◌*◌, ◌/◌, ◌%◌, ◌^◌, ◌≤◌, ◌<◌, min, ◌≡◌, refl, sym, ap, ◌∙◌, ◌≢◌, ◌↔◌, ◌⊎◌,
  inl, inr, Bool, true, false, not, ◌&&◌, ◌||◌, Option, none, some, List, [], ◌∷◌, ◌++◌, map,
  String, arith, ltb, leb, ◌==◌, if◌then◌else◌, ==_iff, Bool-cases, Option-cases, Bytes, codes,
  length, is_empty, take, drop, length-append, length-take, length-drop, take-append-drop,
  take-append, drop-append, take-append_long, drop-append_long, take_all, drop_all, take-min,
  drop-min, All, All-append, ◌=ᵇ◌, =ᵇ_iff, =ᵇ_self, has_byte, cut, cut-append, starts_with, find,
  ends_in, starts_in,
}
use webserv_team.Dict.{value_at, insert}
use webserv_team.Request.{RequestParser}
use webserv_team.Response.{ResponseBuilder, set_headers, to_string}

unfoldable pub set_cookie : Bytes → Bytes → ℕ → ResponseBuilder → ResponseBuilder
unfolding set_headers to_string
set_cookie name value max_age_seconds r =
    let age =
      if ltb 0 max_age_seconds then codes "; Max-Age=" ++ to_string max_age_seconds else [] in
    set_headers (codes "Set-Cookie")
      (name ++ b'=' ∷ value ++ age ++ codes "; Path=/" ++ codes "; HttpOnly; SameSite=Strict") r

-- Up to the first `;`, or all of the text.
unfoldable pub up_to_semicolon : Bytes → Bytes
unfolding cut
up_to_semicolon s = elim (cut b';' s) [ none ↦ s | some (value, rest) ↦ value ]

unfoldable pub get_cookie : RequestParser → Bytes → Bytes
unfolding find up_to_semicolon
get_cookie request name =
    let cookie_header = value_at (codes "cookie") request.headers in
    elim (find (name ++ b'=' ∷ []) cookie_header) [
      | none ↦ []
      | some start ↦ up_to_semicolon (drop (start + (length name + 1)) cookie_header)
    ]

unfoldable pub delete_cookie : Bytes → ResponseBuilder → ResponseBuilder
unfolding set_headers
delete_cookie name r = set_headers (codes "Set-Cookie") (name ++ codes "=; Max-Age=0; Path=/") r

unfoldable pub validate_session : RequestParser → Bool
unfolding get_cookie
validate_session request = not (is_empty (get_cookie request (codes "session_id")))
