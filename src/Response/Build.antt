-- ===== src/Response/Build.antt =====
-- The constructor, the routes and `build_response` of srcs/ReqRes/ResponseBuilder.cpp.
pub mod Routes
pub mod Dispatch
use webserv_team.Base.{
  ℕ, zero, suc, ◌+◌, ◌-◌, ◌*◌, ◌/◌, ◌%◌, ◌^◌, ◌≤◌, ◌<◌, min, ◌≡◌, refl, sym, ap, ◌∙◌, ◌≢◌, ◌↔◌, ◌⊎◌,
  inl, inr, Bool, true, false, not, ◌&&◌, ◌||◌, Option, none, some, List, [], ◌∷◌, ◌++◌, map,
  String, arith, ltb, leb, ◌==◌, if◌then◌else◌, ==_iff, Bool-cases, Option-cases, Bytes, codes,
  length, is_empty, take, drop, length-append, length-take, length-drop, take-append-drop,
  take-append, drop-append, take-append_long, drop-append_long, take_all, drop_all, take-min,
  drop-min, All, All-append, ◌=ᵇ◌, =ᵇ_iff, =ᵇ_self, has_byte, cut, cut-append, starts_with, find,
  ends_in, starts_in,
}
use webserv_team.Config.{Location, to_short}
use webserv_team.Dict.{Dict}
use webserv_team.Request.{RequestParser}
use webserv_team.Response.{
  Os, Handler, do_get, do_post, do_delete, ResponseBuilder, set_headers, set_body, set_status,
}
use webserv_team.Response.Session.{get_cookie, set_cookie}
use webserv_team.Response.Pages.{fail_with, error_page, include_required_headers}
use webserv_team.Response.Methods.{get, post, delete}

unfoldable pub init_config : {W : Type 0} → Os W → W → ResponseBuilder → ResponseBuilder
init_config os w r = elim r.request.server_config [
  | none ↦ fail_with os w 404 (record r { location_config = r.request.location_config })
  | some server ↦ elim r.request.location_config [
    | none ↦ fail_with os w 404 (record r { server_config = some server })
    | some l ↦ record r { server_config = some server; location_config = some l }
  ]
]

unfoldable pub process_session_cookie : {W : Type 0} → Os W → W → ResponseBuilder → ResponseBuilder
process_session_cookie os w r =
    if is_empty (get_cookie r.request (codes "session_id"))
    then set_cookie (codes "session_id") (os.session_id w) 3600 r
    else r

-- The status that the constructor leaves unset is 0 here.
unfoldable pub new_response : {W : Type 0} → Os W → W → RequestParser → ResponseBuilder
new_response os w request = process_session_cookie os w (
    init_config os w (record {
      request = request;
      http_version = codes "HTTP/1.1";
      status = [];
      headers = [];
      body = [];
      status_code = 0;
      routes = [];
      server_config = none;
      location_config = none;
    }))

unfoldable pub find_route : Bytes → List (Bytes × Handler) → Option Handler
find_route m [] = none
find_route m ((k, handler) ∷ routes) = if k =ᵇ m then some handler else find_route m routes

-- The table of the methods.
unfoldable pub handler_of : Bytes → Option Handler
handler_of m =
    if m =ᵇ codes "GET"
    then some do_get
    else if m =ᵇ codes "POST"
    then some do_post
    else if m =ᵇ codes "DELETE"
    then some do_delete
    else none

-- A method enters the routes once.
unfoldable pub add_route : Bytes → List (Bytes × Handler) → List (Bytes × Handler)
add_route m routes = elim (handler_of m) [
  | none ↦ routes
  | some handler ↦ elim (find_route m routes) [
    | none ↦ routes ++ (m, handler) ∷ []
    | some _ ↦ routes
  ]
]

unfoldable pub init_routes : List Bytes → List (Bytes × Handler) → List (Bytes × Handler)
init_routes [] routes = routes
init_routes (m ∷ ms) routes = init_routes ms (add_route m routes)

unfoldable pub handle_redirection :
    {W : Type 0} → Os W → W → Location → ResponseBuilder → ResponseBuilder
handle_redirection os w l r =
    if l.is_redirect
    then set_headers (codes "Location") l.redirect_url
        (fail_with os w (if l.is_redirect_permanent then 301 else 302) r)
    else r

-- The `return` directive.
unfoldable pub answer_return : Location → ResponseBuilder → ResponseBuilder
answer_return l r =
    let r' = set_body l.return_message (set_status (to_short l.return_code) r) in
    if is_empty l.return_message
    then r'
    else set_headers (codes "Content-Type") (codes "text/plain") r'

unfoldable pub run_handler :
    {W : Type 0} → Os W → W → Location → Handler → ResponseBuilder → ResponseBuilder × W
run_handler os w l do_get r = (get os w l r, w)
run_handler os w l do_post r = post os w l r
run_handler os w l do_delete r = delete os w l r

unfoldable pub dispatch : {W : Type 0} → Os W → W → Location → ResponseBuilder → ResponseBuilder × W
dispatch os w l r =
    let r' = record r { routes = init_routes l.allowed_methods r.routes } in
    elim (find_route r.request.http_method r'.routes) [
      | none ↦ (fail_with os w 405 r', w)
      | some handler ↦ run_handler os w l handler r'
    ]

unfoldable pub answer_at :
    {W : Type 0} → Os W → W → Location → ResponseBuilder → ResponseBuilder × W
answer_at os w l r =
    let (r', w') = dispatch os w l r in
    if l.has_return
    then (handle_redirection os w l (answer_return l r), w)
    else (handle_redirection os w' l r', w')

-- `build_response` in front of `generate_response_only`. Where a request has no error, it has a
-- location: `match_location` gives one or the error 404.
unfoldable pub answer : {W : Type 0} → Os W → W → ResponseBuilder → ResponseBuilder × W
answer os w r =
    if not (r.request.error_code == 0)
    then (fail_with os w r.request.error_code r, w)
    else elim r.location_config [ none ↦ (r, w) | some l ↦ answer_at os w l r ]

abbrev crlf : Bytes
crlf = 13 ∷ 10 ∷ []

unfoldable pub header_lines : Dict → Bytes
header_lines [] = []
header_lines ((k, v) ∷ m) = k ++ codes ": " ++ v ++ crlf ++ header_lines m

unfoldable pub generate_response_string : ResponseBuilder → Bytes
generate_response_string r =
    r.http_version ++ codes " " ++ r.status ++ crlf ++ header_lines r.headers ++ crlf ++ r.body

unfoldable pub build_response : {W : Type 0} → Os W → W → RequestParser → Bytes × W
build_response os w request =
    let (r, w') = answer os w (new_response os w request) in
    (generate_response_string (include_required_headers os w' r), w')
