-- ===== src/Tests/Requests.antt =====
-- Runs of the parser of requests.
use webserv_team.Base.{◌≡◌, refl, true, [], ◌∷◌, ◌++◌, arith, codes, ◌=ᵇ◌, has_byte}
use webserv_team.Run.{returns, no_fuel, ◌>>=◌}
use webserv_team.Dict.{lookup}
use webserv_team.Libc.{strtoul}
use webserv_team.Utils.{trim}
use webserv_team.Request.{RequestParser, new_parser, at_body, done}
use webserv_team.Request.Body.{parse_body, parse_chunked_body, chunk_size}
use webserv_team.Request.Body.Chunked.{
  Chunked, last, chunk, SizeLine, decoded, parse_chunked_body-Chunked,
}
use webserv_team.Request.Body.Content.{HasLength, parse_body-append, parse_body_done}
use webserv_team.Request.Body.Progress.{Terminates, parse_body_total}
use webserv_team.Request.Setters.{one_of, has_invalid, has_control}
use webserv_team.Request.Parse.{request_loop}
use webserv_team.Request.Parse.Hangs.{FragmentRequest, request_loop_fragment}

abbrev three : SizeLine (codes "3") 3
unfolding chunk_size strtoul trim
three = record { plain = (omega arith, tt); end = []; parsed = refl; whole = refl }

abbrev zero_size : SizeLine (codes "0") 0
unfolding chunk_size strtoul trim
zero_size = record { plain = (omega arith, tt); end = []; parsed = refl; whole = refl }

abbrev abc_chunked : Chunked (codes "abc") (codes "3\r\nabc\r\n0\r\n\r\n")
abc_chunked = chunk (codes "abc") three (omega arith) (omega arith) (last zero_size)

parse_chunked_body-Chunked_example :
    parse_chunked_body new_parser (codes "3\r\nabc\r\n0\r\n\r\nGET")
    ≡ returns (decoded new_parser (codes "abc"), codes "GET")
parse_chunked_body-Chunked_example =
    parse_chunked_body-Chunked new_parser (codes "GET") abc_chunked refl refl

abbrev sized : RequestParser
sized = record new_parser {
  state = at_body;
  headers = (codes "content-length", codes "5") ∷ [];
  has_content_length = true;
}

abbrev five_bytes : HasLength sized 5
unfolding strtoul lookup ◌=ᵇ◌
five_bytes = record {
  not_coded = refl;
  sized = refl;
  text = codes "5";
  end = [];
  stored = refl;
  parsed = refl;
  whole = refl;
  positive = omega arith;
  is_word = omega arith;
}

parse_body-append_example :
    parse_body sized (codes "he" ++ codes "llo!")
    ≡ (do next ← parse_body sized (codes "he"); parse_body next.0 (next.1 ++ codes "llo!"))
parse_body-append_example =
    parse_body-append sized 5 (codes "he") (codes "llo!") five_bytes (omega arith)

parse_body_done_example :
    parse_body sized (codes "hello" ++ codes "!")
    ≡ returns
        (record sized { content_length_value = 5; body = codes "hello"; state = done }, codes "!")
parse_body_done_example = parse_body_done sized 5 (codes "hello") (codes "!") five_bytes refl

parse_body_total_example : Terminates (parse_body sized (codes "hello"))
parse_body_total_example = parse_body_total sized (codes "hello")

abbrev fragment_request : FragmentRequest new_parser (codes "GET") []
unfolding one_of has_byte ◌=ᵇ◌ has_invalid has_control
fragment_request = record {
  at_start = refl;
  known = refl;
  plain = omega arith;
  one_word = refl;
  no_invalid = refl;
  no_control = refl;
  short = omega arith;
}

request_loop_fragment_example :
    request_loop 9 new_parser (codes "GET # HTTP/1.1\r\nHost: a\r\n\r\n") ≡ no_fuel
request_loop_fragment_example =
    request_loop_fragment new_parser (codes "GET") [] b'H' (codes "ost: a\r\n\r\n") fragment_request
      9
