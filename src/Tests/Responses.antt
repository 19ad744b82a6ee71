-- ===== src/Tests/Responses.antt =====
-- Runs of the builder of responses, on a machine that is a list of files.
use webserv_team.Base.{
  ◌≡◌, refl, inl, true, none, some, [], ◌∷◌, ◌++◌, arith, Bytes, codes, ◌=ᵇ◌, has_byte, ends_in,
}
use webserv_team.Dict.{Dict, insert, lookup, erase, has_key}
use webserv_team.Config.{new_location}
use webserv_team.Request.{RequestParser, new_parser}
use webserv_team.Request.Setters.{one_of}
use webserv_team.Response.{Os, ResponseBuilder}
use webserv_team.Response.Session.{get_cookie}
use webserv_team.Response.Session.Cookie.{get_cookie-first}
use webserv_team.Response.Pages.{include_required_headers}
use webserv_team.Response.Pages.Required.{IsFramed, include_required_headers-IsFramed}
use webserv_team.Response.Methods.{delete, get}
use webserv_team.Response.Methods.Gets.{Gets, get-Gets}
use webserv_team.Response.Methods.Deletes.{Deletes, delete-Deletes}
use webserv_team.Response.Multipart.{parts_loop, handle_multipart_form_data}
use webserv_team.Response.Multipart.Names.{Stores, handle_multipart_form_data-Stores}
use webserv_team.Response.Multipart.Enough.{parts_loop_ends}
use webserv_team.Response.Build.{find_route, init_routes, dispatch, answer}
use webserv_team.Response.Build.Routes.{IsRoute, find_route-init_routes}
use webserv_team.Response.Build.Dispatch.{IsHandled, routed, dispatch-IsHandled, answer_not_allowed}

-- A machine with no directory but those whose path ends with a slash.
abbrev listed : Os Dict
listed = record {
  stat = λ path w. elim (lookup path w) [
    | none ↦ none
    | some text ↦ some (record { is_directory = ends_in b'/' path; is_readable = true })
  ];
  list_directory = λ path w. some [];
  content_of = lookup;
  is_writable = λ path w. true;
  remove_directory = λ path w. (has_key path w, erase path w);
  remove_file = λ path w. (has_key path w, erase path w);
  write_file = λ path text w. (true, insert path text w);
  http_date = λ w. codes "Thu, 01 Jan 1970 00:00:00 GMT";
  timestamp = λ w. codes "19700101";
  session_id = λ w. codes "1";
}

abbrev files : Dict
files = (codes "/a", codes "text") ∷ []

abbrev asks : Bytes → ResponseBuilder
asks method = record {
  request = record new_parser { http_method = method; request_uri = codes "/a" };
  http_version = codes "HTTP/1.1";
  status = [];
  headers = [];
  body = codes "text";
  status_code = 0;
  routes = [];
  server_config = none;
  location_config = some new_location;
}

find_route-init_routes_example :
    IsRoute new_location.allowed_methods
      (codes "GET")
      (find_route (codes "GET") (init_routes new_location.allowed_methods []))
find_route-init_routes_example = find_route-init_routes (codes "GET") new_location.allowed_methods

dispatch-IsHandled_example :
    IsHandled listed files new_location
      (routed new_location (asks (codes "GET")))
      (dispatch listed files new_location (asks (codes "GET")))
dispatch-IsHandled_example = dispatch-IsHandled listed files new_location (asks (codes "GET")) refl

answer_not_allowed_example :
    ((answer listed files (asks (codes "PUT"))).0.status_code ≡ 405)
    × ((answer listed files (asks (codes "PUT"))).1 ≡ files)
unfolding one_of ◌=ᵇ◌
answer_not_allowed_example =
    answer_not_allowed listed files new_location (asks (codes "PUT")) refl refl refl (inl refl)

delete-Deletes_example :
    Deletes listed files
      (new_location.root ++ codes "/a")
      (delete listed files new_location (asks (codes "DELETE"))).1
delete-Deletes_example = delete-Deletes listed files new_location (asks (codes "DELETE"))

abbrev form : Bytes
form = codes "--x\r\nContent-Disposition: form-data; filename=\"f\"\r\n\r\nabc\r\n--x--"

handle_multipart_form_data-Stores_example :
    Stores listed
      (codes "up")
      files
      (handle_multipart_form_data listed
        (codes "up")
        (codes "multipart/form-data; boundary=x")
        form
        (asks (codes "POST"), files)).2
handle_multipart_form_data-Stores_example =
    handle_multipart_form_data-Stores listed (codes "up") (codes "multipart/form-data; boundary=x")
      form (asks (codes "POST")) files

parts_loop_ends_example :
    (st : ResponseBuilder × Dict) × (parts_loop listed
        (codes "up")
        (codes "--x")
        90
        form
        (asks (codes "POST"), files)
      ≡ some st)
parts_loop_ends_example =
    parts_loop_ends listed (codes "up") (codes "--x") 90 form (asks (codes "POST"), files)
      (omega arith)

include_required_headers-IsFramed_example :
    IsFramed (include_required_headers listed files (asks (codes "GET")))
    × ((include_required_headers listed files (asks (codes "GET"))).body ≡ codes "text")
unfolding lookup
include_required_headers-IsFramed_example =
    include_required_headers-IsFramed listed files (asks (codes "GET")) refl

abbrev with_cookie : RequestParser
with_cookie = record new_parser { headers = (codes "cookie", codes "session_id=42;x=1") ∷ [] }

get_cookie-first_example : get_cookie with_cookie (codes "session_id") ≡ codes "42"
unfolding lookup has_byte ◌=ᵇ◌
get_cookie-first_example =
    get_cookie-first with_cookie (codes "session_id") (codes "42") (codes "x=1") refl refl refl

get-Gets_example :
    Gets listed files new_location
      (codes "/a")
      (get listed files new_location (asks (codes "GET"))).status_code
get-Gets_example = get-Gets listed files new_location (asks (codes "GET"))
