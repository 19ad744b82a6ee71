-- ===== src/Client/Reading/Serves.antt =====
-- From the bytes of a request to the response.
use mathlib.Core.Path.{subst}
use webserv_team.Base.{
  ℕ, ◌≡◌, refl, sym, ◌∙◌, ◌≢◌, true, false, none, some, ◌++◌, arith, Bytes, codes, is_empty,
}
use webserv_team.Run.{returns}
use webserv_team.Request.{RequestParser, new_parser}
use webserv_team.Request.Setters.{set_request_line}
use webserv_team.Request.Parse.{is_body, parse_request}
use webserv_team.Request.Routing.{is_cgi_request, script_path}
use webserv_team.Response.Multipart.{double_crlf, contains}
use webserv_team.Response.Build.{build_response}
use webserv_team.Kernel.{Kernel}
use webserv_team.Multiplexer.{Machine}
use webserv_team.Client.{Reaction, reacts, crashes, hangs, Client, update_activity}
use webserv_team.Client.Process.{process_normal_request, process_completed_request}
use webserv_team.Client.Process.Answers.{process_completed_request_crashes}
use webserv_team.Client.Reading.{
  receive, read_incoming_data, handle_expect_continue, locate, read_headers,
  process_request_headers, process_data, handle_incoming_data,
}

-- What `recv` gives, and the machine behind it.
abbrev pub arrived : {W : Type 0} → Kernel W → Client → Machine W → Bytes
arrived k c m = (k.recv c.peer_socket_fd 1024 m.world).0

abbrev pub behind_recv : {W : Type 0} → Kernel W → Client → Machine W → Machine W
behind_recv k c m = record m { world = (k.recv c.peer_socket_fd 1024 m.world).1 }

-- The request that is answered.
abbrev pub located : {W : Type 0} → Kernel W → Client → Machine W → RequestParser → RequestParser
located k c m s = set_request_line (locate k c (behind_recv k c m) s)

-- The client has ready what `build_response` makes of the request on this machine, and keeps what
-- follows the request.
abbrev pub Serves :
    {W : Type 0}
    → Kernel W
    → RequestParser
    → Bytes
    → Machine W
    → Reaction (Client × Machine W)
    → Type 0
Serves k s rest m (reacts (c, m')) =
    (c.response_ready ≡ true)
    × ((c.response_buffer ≡ (build_response k.os m.world s).0)
        × ((m'.world ≡ (build_response k.os m.world s).1) × (c.request_buffer ≡ rest)))
Serves k s rest m crashes = ⊥
Serves k s rest m hangs = ⊥

-- The text of what was left over and what is read now holds a whole request.
pub record IsWhole {W : Type 0} (k : Kernel W) (fuel : ℕ) (s : RequestParser) (rest : Bytes)
    (c : Client) (m : Machine W) : Type 0 where
  pub some_bytes : is_empty (arrived k c m) ≡ false
  pub ends : contains double_crlf (c.request_buffer ++ arrived k c m) ≡ true
  pub parses : parse_request fuel new_parser (c.request_buffer ++ arrived k c m) ≡ returns (s, rest)
  pub whole : is_body (located k c m s).state ≡ false

module _ {W : Type 0} (k : Kernel W) where
  process_request_headers_completes :
      (fuel : ℕ) (s : RequestParser) (rest : Bytes) (c : Client) (m : Machine W)
      → contains double_crlf c.request_buffer ≡ true
      → parse_request fuel new_parser c.request_buffer ≡ returns (s, rest)
      → is_body (locate k c m s).state ≡ false
      → process_request_headers k fuel c m
        ≡ process_completed_request k
            (locate k c m s)
            (record c { parser = some (locate k c m s); request_buffer = rest })
            m
  unfolding process_request_headers read_headers
  process_request_headers_completes fuel s rest c m ends parsed whole = ground arith

  -- A whole request is handled at once.
  handle_incoming_data_completes :
      (fuel : ℕ) (s : RequestParser) (rest : Bytes) (c : Client) (m : Machine W)
      → c.parser ≡ none
      → IsWhole k fuel s rest c m
      → handle_incoming_data k fuel c m
        ≡ process_completed_request k
            (locate k c (behind_recv k c m) s)
            (record c {
              last_activity = k.now (behind_recv k c m).world;
              parser = some (locate k c (behind_recv k c m) s);
              request_buffer = rest;
            })
            (behind_recv k c m)
  unfolding handle_incoming_data read_incoming_data receive handle_expect_continue process_data
      update_activity locate
  handle_incoming_data_completes fuel s rest c m new h =
      let m' = behind_recv k c m in
      let c' = record c {
        last_activity = k.now m'.world;
        request_buffer = c.request_buffer ++ arrived k c m;
      } in
      let completes = process_request_headers_completes fuel s rest c' m' h.ends h.parses h.whole in
      ground (arith, completes, h.some_bytes)

  process_completed_request-Serves :
      (s : RequestParser) (rest : Bytes) (c : Client) (m : Machine W)
      → is_cgi_request (set_request_line s) ≡ false
      → c.request_buffer ≡ rest
      → Serves k (set_request_line s) rest m (process_completed_request k s c m)
  unfolding process_completed_request process_normal_request build_response
  process_completed_request-Serves s rest c m plain e = ground arith

  -- A request that has arrived whole, by the text of what was left over and what is read now, and that
  -- is not one for a script, is answered at once by a client that has no request open: the response that
  -- is ready is the one that `build_response` makes of the parsed and routed request, errors of the
  -- parser included; the machine is as it leaves it; and what follows the request is kept.
  pub handle_incoming_data-Serves :
      (fuel : ℕ) (s : RequestParser) (rest : Bytes) (c : Client) (m : Machine W)
      → c.parser ≡ none
      → IsWhole k fuel s rest c m
      → is_cgi_request (located k c m s) ≡ false
      → Serves k (located k c m s) rest (behind_recv k c m) (handle_incoming_data k fuel c m)
  handle_incoming_data-Serves fuel s rest c m new h plain =
      subst (Serves k (located k c m s) rest (behind_recv k c m))
        (sym (handle_incoming_data_completes fuel s rest c m new h))
        (process_completed_request-Serves (locate k c (behind_recv k c m) s) rest _
          (behind_recv k c m) plain refl)

  -- A request for a script that has arrived whole and that has got no location, since it has an error or
  -- no location covers it, crashes the server, unless its method is DELETE: a client that has no request
  -- and no builder open reads the location through a null pointer.
  pub handle_incoming_data_crashes :
      (fuel : ℕ) (s : RequestParser) (rest : Bytes) (c : Client) (m : Machine W)
      → c.parser ≡ none
      → c.response_builder ≡ none
      → IsWhole k fuel s rest c m
      → (located k c m s).location_config ≡ none
      → is_cgi_request (located k c m s) ≡ true
      → (located k c m s).http_method ≢ codes "DELETE"
      → handle_incoming_data k fuel c m ≡ crashes
  unfolding is_cgi_request script_path
  handle_incoming_data_crashes fuel s rest c m new fresh h nowhere script other =
      handle_incoming_data_completes fuel s rest c m new h
      ∙ process_completed_request_crashes k (locate k c (behind_recv k c m) s) _ (behind_recv k c m)
          nowhere fresh script other
