-- ===== src/Request/Headers/Sound.antt =====
-- What holds of a parser that has accepted the headers.
use webserv_team.Run.{Run, returns}
use webserv_team.Base.{◌≤◌, ◌≡◌, Bool, true, false, not, ◌&&◌, ◌||◌, Bytes, codes, length, ◌=ᵇ◌}
use webserv_team.Dict.{lookup, has_key}
use webserv_team.Utils.{is_numeric}
use webserv_team.Request.{ParseState, RequestParser, at_body, done}
use webserv_team.Request.Headers.Field.{is_transfer_coding, max_header_count}
use webserv_team.Request.Headers.Checks.{
  implies, passes, host, content_length, transfer_encoding, is_read,
}

abbrev awaits_body : ParseState → Bool
awaits_body at_body = true
awaits_body _ = false

abbrev is_over : ParseState → Bool
is_over done = true
is_over _ = false

-- The headers are complete.
pub record IsComplete (s : RequestParser) : Type 0 where
  pub hosted : has_key host s.headers ≡ true
  pub sized :
      implies s.has_content_length (passes is_numeric (lookup content_length s.headers)) ≡ true
  pub coded :
      implies s.has_transfer_encoding
        (passes is_transfer_coding (lookup transfer_encoding s.headers))
      ≡ true
  pub not_both : (s.has_content_length && s.has_transfer_encoding) ≡ false
  pub framed :
      implies (awaits_body s.state) (s.has_content_length || s.has_transfer_encoding) ≡ true
  pub bodiless : implies (is_over s.state) (not (s.http_method =ᵇ codes "POST")) ≡ true
  pub few : length s.headers ≤ max_header_count

abbrev Good : Run (RequestParser × Bytes) → Type 0
Good (returns (s, rest)) = is_read s.state ≡ true → IsComplete s
Good _ = Unit
