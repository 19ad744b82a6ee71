-- ===== src/Request/Headers.antt =====
-- `parse_headers` of srcs/ReqRes/RequestParser.cpp.
pub mod Field
pub mod Returns
pub mod Checks
pub mod Sound
use webserv_team.Run.{Run, returns, length_error, no_fuel}
use webserv_team.Base.{
  ℕ, zero, suc, ◌+◌, ◌-◌, ◌*◌, ◌/◌, ◌%◌, ◌^◌, ◌≤◌, ◌<◌, min, ◌≡◌, refl, sym, ap, ◌∙◌, ◌≢◌, ◌↔◌, ◌⊎◌,
  inl, inr, Bool, true, false, not, ◌&&◌, ◌||◌, Option, none, some, List, [], ◌∷◌, ◌++◌, map,
  String, arith, ltb, leb, ◌==◌, if◌then◌else◌, ==_iff, Bool-cases, Option-cases, Bytes, codes,
  length, is_empty, take, drop, length-append, length-take, length-drop, take-append-drop,
  take-append, drop-append, All, All-append, ◌=ᵇ◌, =ᵇ_iff, =ᵇ_self, has_byte, cut, starts_with,
  find, ends_in, starts_in,
}
use webserv_team.Request.{RequestParser, at_body, done, log_error}
use webserv_team.Request.Lines.{find_line_end}
use webserv_team.Request.Headers.Field.{Scan, go, stop, parse_field}

-- The empty line behind the headers: the parser, and where it goes on.
unfoldable pub end_headers : Scan → Bytes → Bytes → RequestParser × Bytes
end_headers sc pos header_end =
    let s = sc.parser in
    if not sc.has_host
    then (log_error s 400, pos)
    else if s.has_content_length && s.has_transfer_encoding
    then (log_error s 400, pos)
    else if not s.has_content_length && not s.has_transfer_encoding
    then (if s.http_method =ᵇ codes "POST"
        then (log_error s 411, pos)
        else (record s { state = done }, header_end))
    else (record s { state = at_body }, header_end)

abbrev pub max_header_length : ℕ
max_header_length = 8192

-- One round consumes a line, so that fuel above the length of the input is enough. Where no CRLF is
-- left, the text of a line of less than two bytes would end before it begins, which throws.
unfoldable pub headers_loop : ℕ → Scan → Bytes → Run (RequestParser × Bytes)
headers_loop zero sc pos = no_fuel
headers_loop (suc fuel) sc [] = returns (sc.parser, [])
headers_loop (suc fuel) sc (c ∷ s) =
    let n = find_line_end (c ∷ s) in
    let field : Run (RequestParser × Bytes) = elim (parse_field sc (take (n - 2) (c ∷ s))) [
      | stop p ↦ returns (p, c ∷ s)
      | go sc' ↦ headers_loop fuel sc' (drop n (c ∷ s))
    ] in
    if n == 2
    then returns (end_headers sc (c ∷ s) (drop n (c ∷ s)))
    else if c == b' ' || c == 9
    then returns (log_error sc.parser 400, c ∷ s)
    else if ltb max_header_length n
    then returns (log_error sc.parser 431, c ∷ s)
    else if ltb n 2
    then length_error
    else field

unfoldable pub parse_headers : RequestParser → Bytes → Run (RequestParser × Bytes)
parse_headers s pos =
    headers_loop (suc (length pos)) (record { parser = s; has_host = false; content_length = [] })
      pos
