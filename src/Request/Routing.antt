-- ===== src/Request/Routing.antt =====
-- `match_location`, `is_cgi_request` and `is_connection_close` of srcs/ReqRes/RequestParser.cpp.
pub mod Longest
use webserv_team.Base.{
  ℕ, zero, suc, ◌+◌, ◌-◌, ◌*◌, ◌/◌, ◌%◌, ◌^◌, ◌≤◌, ◌<◌, min, ◌≡◌, refl, sym, ap, ◌∙◌, ◌≢◌, ◌↔◌, ◌⊎◌,
  inl, inr, Bool, true, false, not, ◌&&◌, ◌||◌, Option, none, some, List, [], ◌∷◌, ◌++◌, map,
  String, arith, ltb, leb, ◌==◌, if◌then◌else◌, ==_iff, Bool-cases, Option-cases, Bytes, codes,
  length, is_empty, take, drop, length-append, length-take, length-drop, take-append-drop,
  take-append, drop-append, take-append_long, drop-append_long, take_all, drop_all, take-min,
  drop-min, All, All-append, ◌=ᵇ◌, =ᵇ_iff, =ᵇ_self, has_byte, cut, cut-append, starts_with, find,
  ends_in, starts_in,
}
use webserv_team.Dict.{lookup}
use webserv_team.Config.{Location, ServerConfig}
use webserv_team.Request.{RequestParser, log_error}
use webserv_team.Request.Uri.{normalize_path}
use webserv_team.Request.Setters.{one_of}

-- The host of the request without its port, or an empty text.
unfoldable pub request_host : RequestParser → Bytes
request_host s =
    let host : Bytes = elim (lookup (codes "host") s.headers) [ none ↦ [] | some v ↦ v ] in
    elim (cut b':' host) [ none ↦ host | some (name, port) ↦ name ]

-- The last server with the name, or the one chosen so far.
unfoldable pub choose_server : Bytes → ServerConfig → List ServerConfig → ServerConfig
choose_server host chosen [] = chosen
choose_server host chosen (server ∷ servers) =
    choose_server host (if one_of host server.server_names then server else chosen) servers

abbrev pub path_of : Location → Bytes
path_of l = normalize_path l.location

-- The loop over the locations: an exact match ends it.
unfoldable pub find_location : Bytes → Option Location → ℕ → List Location → Option Location
find_location uri best best_length [] = best
find_location uri best best_length (l ∷ ls) =
    let better = find_location uri (some l) (length (path_of l)) ls in
    let same = find_location uri best best_length ls in
    if uri =ᵇ path_of l
    then some l
    else if starts_with (path_of l) uri && ltb best_length (length (path_of l))
    then better
    else same

-- The servers are `first ∷ others`: every address has at least one.
unfoldable pub match_location : RequestParser → ServerConfig → List ServerConfig → RequestParser
match_location s first others =
    let server = choose_server (request_host s) first (first ∷ others) in
    let found = find_location s.request_uri none 0 server.locations in
    let s' = record s { server_config = some server } in
    elim found [
      | some l ↦ record s' { location_config = some l }
      | none ↦ elim s.location_config [ none ↦ log_error s' 404 | some _ ↦ s' ]
    ]

-- `find_last_of(c)` with the texts before and behind the place found.
unfoldable pub last_cut : ℕ → Bytes → Option (Bytes × Bytes)
last_cut c [] = none
last_cut c (x ∷ s) = elim (last_cut c s) [
  | some (a, b) ↦ some (x ∷ a, b)
  | none ↦ if x == c then some ([], s) else none
]

-- The path with the index file behind it, if it names a directory.
unfoldable pub script_path : RequestParser → Bytes
script_path s = elim s.location_config [
  | none ↦ s.request_uri
  | some l ↦ if ends_in b'/' s.request_uri then s.request_uri ++ l.index else s.request_uri
]

abbrev pub is_script_extension : Bytes → Bool
is_script_extension e = e =ᵇ codes "php" || e =ᵇ codes "py"

-- With no slash in the path `find_last_of('/')` is `npos`, which is greater than any place.
unfoldable pub is_script : Bytes → Bool
is_script path = elim (last_cut b'.' path) [
  | none ↦ false
  | some (base, extension) ↦
      if has_byte b'/' extension || not (has_byte b'/' path)
      then false
      else is_script_extension extension
]

unfoldable pub is_cgi_request : RequestParser → Bool
is_cgi_request s = if s.is_cgi_request_flag then true else is_script (script_path s)

unfoldable pub is_connection_close : RequestParser → Bool
is_connection_close s = elim (lookup (codes "connection") s.headers) [
  | none ↦ false
  | some v ↦ v =ᵇ codes "close"
]
