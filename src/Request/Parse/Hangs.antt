-- ===== src/Request/Parse/Hangs.antt =====
-- Inputs on which the loop of `parse_request` does not end. The server has one thread, so that no
-- other client is served from then on.
use webserv_team.Run.{returns, no_fuel}
use webserv_team.Base.{
  ℕ, zero, suc, ◌+◌, ◌≤◌, ◌<◌, ◌≡◌, refl, ap, ◌∙◌, true, false, some, [], ◌∷◌, ◌++◌, arith, Bytes,
  codes, length, is_empty, length-append, ◌=ᵇ◌, has_byte, cut,
}
use webserv_team.Dict.{lookup}
use webserv_team.Utils.Laws.{Without}
use webserv_team.Request.{at_request_line, at_headers, at_body, RequestParser, new_parser}
use webserv_team.Request.Headers.{parse_headers}
use webserv_team.Request.Lines.{NoCrlf, find_line_end-line}
use webserv_team.Request.Uri.{decode, decode_percent_encoding, normalize_decoded, normalize_uri}
use webserv_team.Request.Setters.{
  one_of, methods, has_invalid, has_control, is_control, before_fragment, set_http_method,
  set_normalized, set_request_uri, supported_version,
}
use webserv_team.Request.RequestLine.{set_parts, parse_request_line, max_request_line_length}
use webserv_team.Request.RequestLine.Parts.{
  NoCrlf-append, three_parts, split-three_parts, parse_request_line-line,
}
use webserv_team.Request.Body.{
  leave, read_size, chunk_loop, parse_chunked_body, parse_body, transfer_encoding,
}
use webserv_team.Request.Body.Chunked.{crlf}
use webserv_team.Request.Parse.{is_error, is_open, parse_step, request_loop, parse_request}

-- A round that changes nothing is repeated for ever.
request_loop-stuck :
    (s : RequestParser) (pos : Bytes)
    → is_open s.state ≡ true
    → is_error s.state ≡ false
    → is_empty pos ≡ false
    → parse_step s.state s pos ≡ returns (s, pos)
    → (fuel : ℕ) → request_loop fuel s pos ≡ no_fuel
unfolding request_loop
request_loop-stuck s pos o e n k zero = refl
request_loop-stuck s pos o e n k (suc fuel) = ground (arith, request_loop-stuck s pos o e n k fuel)

request_loop-step :
    (fuel : ℕ) (s : RequestParser) (pos : Bytes) {s' : RequestParser} {pos' : Bytes}
    → is_open s.state ≡ true
    → is_empty pos ≡ false
    → parse_step s.state s pos ≡ returns (s', pos')
    → is_error s'.state ≡ false
    → is_empty pos' ≡ false
    → request_loop (suc fuel) s pos ≡ request_loop fuel s' pos'
unfolding request_loop
request_loop-step fuel s pos o n k e m = ground arith

-- The parser waits for the size line of a chunk.
pub record AwaitsChunk (s : RequestParser) : Type 0 where
  pub in_body : s.state ≡ at_body
  pub coded : s.has_transfer_encoding ≡ true
  pub chunked : lookup transfer_encoding s.headers ≡ some (codes "chunked")
  pub between : s.reading_chunk_data ≡ false

read_size-whole_line :
    (s : RequestParser) (line : Bytes)
    → NoCrlf line
    → read_size s (line ++ crlf []) ≡ leave s (line ++ crlf [])
unfolding read_size
read_size-whole_line s line h =
    ground (arith, find_line_end-line line [] h, length-append line (crlf []))

chunk_loop-whole_line :
    (fuel : ℕ) (s : RequestParser) (pos : Bytes)
    → s.reading_chunk_data ≡ false
    → read_size s pos ≡ leave s pos
    → chunk_loop (suc fuel) s pos ≡ returns (s, pos)
unfolding chunk_loop
chunk_loop-whole_line fuel s [] r h = refl
chunk_loop-whole_line fuel s (c ∷ pos) r h = ground arith

parse_body-whole_line :
    (s : RequestParser) (line : Bytes)
    → AwaitsChunk s
    → NoCrlf line
    → parse_body s (line ++ crlf []) ≡ returns (s, line ++ crlf [])
unfolding parse_body parse_chunked_body ◌=ᵇ◌
parse_body-whole_line s line a h = ground (
  arith,
  chunk_loop-whole_line (length (line ++ crlf [])) s (line ++ crlf []) a.between
      (read_size-whole_line s line h),
)

is_empty-false : (line s : Bytes) → 0 < length s → is_empty (line ++ s) ≡ false
is_empty-false [] [] h = absurd (omega arith)
is_empty-false [] (x ∷ s) h = refl
is_empty-false (c ∷ line) s h = refl

request_loop_size_line :
    (s : RequestParser) (line : Bytes) (fuel : ℕ)
    → AwaitsChunk s
    → NoCrlf line
    → request_loop fuel s (line ++ crlf []) ≡ no_fuel
request_loop_size_line s line fuel a h =
    request_loop-stuck s (line ++ crlf []) (rw a.in_body refl) (rw a.in_body refl)
      (is_empty-false line (crlf []) (omega arith))
      (ap (λ st. parse_step st s (line ++ crlf [])) a.in_body
        ∙ unfold parse_step in parse_body-whole_line s line a h)
      fuel

-- A chunked request whose first input is its request line, its headers and a size line with its CRLF,
-- and no more: `parse_request` of a new parser runs for ever. With the headers it comes to the body, in
-- the same call; `parse_body` waits for more, and is called again and again on the same text.
pub parse_request_size_line :
    (input heads line : Bytes) (lined s : RequestParser) (fuel : ℕ)
    → is_empty input ≡ false
    → parse_request_line new_parser input ≡ (lined, heads)
    → lined.state ≡ at_headers
    → is_empty heads ≡ false
    → parse_headers lined heads ≡ returns (s, line ++ crlf [])
    → AwaitsChunk s
    → NoCrlf line
    → parse_request fuel new_parser input ≡ no_fuel
unfolding parse_request
parse_request_size_line input heads line lined s zero n first l n' second a h =
    unfold request_loop in refl
parse_request_size_line input heads line lined s (suc fuel) n first l n' second a h =
    request_loop-step fuel new_parser input {s' = lined} {pos' = heads} refl n
      (unfold parse_step in ap returns first) (rw l refl) n'
    ∙ behind_line fuel
  where
    behind_line : (fuel : ℕ) → request_loop fuel lined heads ≡ no_fuel
    behind_line zero = unfold request_loop in refl
    behind_line (suc fuel) =
        request_loop-step fuel lined heads {s' = s} {pos' = line ++ crlf []} (rw l refl) n'
          (ap (λ st. parse_step st lined heads) l ∙ unfold parse_step in second) (rw a.in_body refl)
          (is_empty-false line (crlf []) (omega arith))
        ∙ request_loop_size_line s line fuel a h

has_invalid-NoCrlf : (f : Bytes) → has_invalid f ≡ false → NoCrlf f
unfolding has_invalid has_byte
has_invalid-NoCrlf [] h = tt
has_invalid-NoCrlf (c ∷ f) h = ground (arith, has_invalid-NoCrlf f)

has_invalid-Without : (f : Bytes) → has_invalid f ≡ false → Without b' ' f
unfolding has_invalid has_byte
has_invalid-Without [] h = refl
has_invalid-Without (c ∷ f) h = ground (arith, has_invalid-Without f)

-- A target that is only a fragment is refused, but no error is set.
set_request_uri_fragment :
    (s : RequestParser) (f : Bytes)
    → has_invalid f ≡ false
    → has_control f ≡ false
    → set_request_uri s (b'#' ∷ f) ≡ (s, false)
unfolding set_request_uri has_invalid has_control before_fragment cut normalize_uri
    decode_percent_encoding decode normalize_decoded set_normalized has_byte is_control
set_request_uri_fragment s f h k = ground arith

set_parts_fragment :
    (s : RequestParser) (m f : Bytes)
    → one_of m methods ≡ true
    → has_invalid f ≡ false
    → has_control f ≡ false
    → set_parts s (m ∷ (b'#' ∷ f) ∷ supported_version ∷ []) ≡ (record s { http_method = m }, false)
unfolding set_parts set_http_method
set_parts_fragment s m f g h k =
    ground (arith, set_request_uri_fragment (record s { http_method = m }) f h k)

-- The parser is at the start, and the input is a request whose target is only a fragment.
pub record FragmentRequest (s : RequestParser) (m f : Bytes) : Type 0 where
  pub at_start : s.state ≡ at_request_line
  pub known : one_of m methods ≡ true
  pub plain : NoCrlf m
  pub one_word : Without b' ' m
  pub no_invalid : has_invalid f ≡ false
  pub no_control : has_control f ≡ false
  pub short : length (three_parts m (b'#' ∷ f)) + 2 ≤ max_request_line_length

module _ (s : RequestParser) (m f : Bytes) (c : ℕ) (rest : Bytes) (h : FragmentRequest s m f) where
  abbrev pub fragment_input : Bytes
  fragment_input = three_parts m (b'#' ∷ f) ++ b'\r' ∷ b'\n' ∷ c ∷ rest

  parse_fragment :
      (t : RequestParser)
      → parse_request_line t fragment_input ≡ (record t { http_method = m }, fragment_input)
  parse_fragment t =
      parse_request_line-line t (three_parts m (b'#' ∷ f)) c rest line h.short
      ∙ rw (
        split-three_parts m (b'#' ∷ f) h.one_word word,
        set_parts_fragment t m f h.known h.no_invalid h.no_control,
      )
    where
      word : Without b' ' (b'#' ∷ f)
      word = unfold has_byte in has_invalid-Without f h.no_invalid

      line : NoCrlf (three_parts m (b'#' ∷ f))
      line = NoCrlf-append m _ h.plain (
        (omega arith),
        NoCrlf-append (b'#' ∷ f) _ ((omega arith), has_invalid-NoCrlf f h.no_invalid) (omega arith),
      )

  -- A request whose target is only a fragment, such as "GET # HTTP/1.1", is refused without an error,
  -- and `parse_request` parses the same line again and again.
  pub request_loop_fragment : (fuel : ℕ) → request_loop fuel s fragment_input ≡ no_fuel
  request_loop_fragment zero = unfold request_loop in refl
  request_loop_fragment (suc fuel) =
      request_loop-step fuel s fragment_input {s' = named} {pos' = fragment_input}
        (rw h.at_start refl) long
        (ap (λ st. parse_step st s fragment_input) h.at_start
          ∙ unfold parse_step in ap returns (parse_fragment s))
        (rw h.at_start refl) long
      ∙ request_loop-stuck named fragment_input (rw h.at_start refl) (rw h.at_start refl) long
          (ap (λ st. parse_step st named fragment_input) h.at_start
            ∙ unfold parse_step in ap returns (parse_fragment named))
          fuel
    where
      named : RequestParser
      named = record s { http_method = m }

      long : is_empty fragment_input ≡ false
      long = is_empty-false (three_parts m (b'#' ∷ f)) (b'\r' ∷ b'\n' ∷ c ∷ rest) (omega arith)
