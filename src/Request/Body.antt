-- ===== src/Request/Body.antt =====
-- `parse_body` and `parse_chunked_body` of srcs/ReqRes/RequestParser.cpp.
pub mod Progress
pub mod Content
pub mod Chunked
use webserv_team.Run.{Run, returns, no_fuel}
use webserv_team.Base.{
  ℕ, zero, suc, ◌+◌, ◌-◌, ◌%◌, ◌^◌, min, true, false, not, ◌&&◌, ◌||◌, [], ◌∷◌, ◌++◌, ◌==◌,
  if◌then◌else◌, Bytes, codes, length, take, drop, ◌=ᵇ◌,
}
use webserv_team.Dict.{insert, has_key, value_at}
use webserv_team.Libc.{strtoul, at_end}
use webserv_team.Utils.{trim}
use webserv_team.Request.{RequestParser, done, log_error}
use webserv_team.Request.Lines.{find_line_end}

-- `headers[key]` enters a missing key with an empty value.
abbrev pub touch : Bytes → RequestParser → RequestParser
touch key s = record s {
  headers = if has_key key s.headers then s.headers else insert key [] s.headers;
}

-- The branch for a `Content-Length`; `content_length` is the parsed number, `end` what follows it.
-- The subtraction of two `size_t` wraps around.
unfoldable pub read_content : RequestParser → ℕ → Bytes → Bytes → RequestParser × Bytes
read_content s content_length end pos =
    let remaining_bytes = (content_length + 2 ^ 64 - length s.body) % 2 ^ 64 in
    let bytes_to_read = min remaining_bytes (length pos) in
    let body = s.body ++ take bytes_to_read pos in
    if not (at_end end) || content_length == 0
    then (log_error (record s { content_length_value = content_length }) 400, pos)
    else (
      record s {
        content_length_value = content_length;
        body = body;
        state = if length body == content_length then done else s.state;
      },
      drop bytes_to_read pos,
    )

-- What a round of the chunk loop does: it returns from the function, or goes on.
pub data Round : Type 0 where
  leave : RequestParser → Bytes → Round
  again : RequestParser → Bytes → Round

-- The CRLF at the end of a chunk.
unfoldable pub end_chunk : RequestParser → Bytes → Round
end_chunk s (c ∷ (d ∷ rest)) =
    if c == b'\r' && d == b'\n'
    then again
        (record s { current_chunk_read = 0; current_chunk_size = 0; reading_chunk_data = false })
        rest
    else leave (log_error s 400) (c ∷ d ∷ rest)
end_chunk s pos = leave s pos

-- The branch of the loop that reads chunk data.
unfoldable pub read_chunk : RequestParser → Bytes → Round
read_chunk s pos =
    let remaining = (s.current_chunk_size + 2 ^ 64 - s.current_chunk_read) % 2 ^ 64 in
    let to_read = min remaining (length pos) in
    let s' = record s {
      body = s.body ++ take to_read pos;
      current_chunk_read = s.current_chunk_read + to_read;
    } in
    if s'.current_chunk_read == s.current_chunk_size
    then end_chunk s' (drop to_read pos)
    else leave s' (drop to_read pos)

-- The CRLF behind the final chunk.
unfoldable pub end_body : RequestParser → Bytes → Round
end_body s (c ∷ (d ∷ rest)) =
    if c == b'\r' && d == b'\n'
    then leave (record s { state = done }) rest
    else leave (log_error s 400) (c ∷ d ∷ rest)
end_body s pos = leave s pos

abbrev line_bytes : Bytes
line_bytes = 13 ∷ 10 ∷ b' ' ∷ 9 ∷ []

-- The number on a size line, and what follows it on the line.
unfoldable pub chunk_size : Bytes → ℕ × Bytes
chunk_size line = strtoul 16 (trim line line_bytes)

-- The branch of the loop that reads a size line.
unfoldable pub read_size : RequestParser → Bytes → Round
read_size s pos =
    let n = find_line_end pos in
    let size = chunk_size (take n pos) in
    let s' = record s { current_chunk_size = size.0 } in
    if n == length pos
    then leave s pos
    else if not (at_end size.1)
    then leave (log_error s 400) pos
    else if size.0 == 0
    then end_body s' (drop n pos)
    else again (record s' { current_chunk_read = 0; reading_chunk_data = true }) (drop n pos)

abbrev pub chunk_round : RequestParser → Bytes → Round
chunk_round s pos = if s.reading_chunk_data then read_chunk s pos else read_size s pos

-- Each round that goes on has consumed a byte, so that fuel above the length of the input is enough.
unfoldable pub chunk_loop : ℕ → RequestParser → Bytes → Run (RequestParser × Bytes)
chunk_loop zero s pos = no_fuel
chunk_loop (suc fuel) s [] = returns (s, [])
chunk_loop (suc fuel) s (c ∷ pos) = elim (chunk_round s (c ∷ pos)) [
  | leave s' rest ↦ returns (s', rest)
  | again s' rest ↦ chunk_loop fuel s' rest
]

unfoldable pub parse_chunked_body : RequestParser → Bytes → Run (RequestParser × Bytes)
parse_chunked_body s pos = chunk_loop (suc (length pos)) s pos

abbrev pub transfer_encoding : Bytes
transfer_encoding = codes "transfer-encoding"

abbrev pub content_length_key : Bytes
content_length_key = codes "content-length"

unfoldable pub parse_body : RequestParser → Bytes → Run (RequestParser × Bytes)
parse_body s pos =
    let coded = touch transfer_encoding s in
    let sized = touch content_length_key s in
    let value = strtoul 10 (value_at content_length_key s.headers) in
    if s.has_transfer_encoding
    then (if value_at transfer_encoding s.headers =ᵇ codes "chunked"
        then parse_chunked_body coded pos
        else returns (log_error coded 501, pos))
    else if s.has_content_length
    then returns (read_content sized value.0 value.1 pos)
    else returns (s, pos)
