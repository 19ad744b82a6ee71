-- ===== src/Response/Build/Dispatch.antt =====
-- What a method comes to at a location: `dispatch` and `build_response` of the response builder.
use webserv_team.Base.{
  ℕ, ◌≡◌, sym, ap, ◌∙◌, ◌⊎◌, inl, inr, true, false, Option, none, some, [], arith, if◌then◌else◌,
  Bool-cases, codes,
}
use webserv_team.Config.{Location, to_short}
use webserv_team.Request.Setters.{one_of}
use webserv_team.Response.{Os, Handler, ResponseBuilder, set_status, set_headers, set_body}
use webserv_team.Response.Pages.{fail_with}
use webserv_team.Response.Build.{
  find_route, init_routes, dispatch, handle_redirection, answer_return, answer_at, answer,
  run_handler,
}
use webserv_team.Response.Methods.{get, post, delete}
use mathlib.Core.Path.{subst}
use webserv_team.Response.Build.Routes.{
  handled, IsRoute, route_get, route_post, route_delete, not_listed, not_handled,
  find_route-init_routes, find_route-missing, status-fail_with,
}

-- What the method of a request leads to at a location, for a response with the routes of the location.
pub data IsHandled {W : Type 0} (os : Os W) (w : W) (l : Location) (r : ResponseBuilder)
    : ResponseBuilder × W → Type 0 where
  by_get :
      one_of (codes "GET") l.allowed_methods ≡ true
      → r.request.http_method ≡ codes "GET"
      → IsHandled os w l r (get os w l r, w)
  by_post :
      one_of (codes "POST") l.allowed_methods ≡ true
      → r.request.http_method ≡ codes "POST"
      → IsHandled os w l r (post os w l r)
  by_delete :
      one_of (codes "DELETE") l.allowed_methods ≡ true
      → r.request.http_method ≡ codes "DELETE"
      → IsHandled os w l r (delete os w l r)
  refused :
      (one_of r.request.http_method l.allowed_methods ≡ false)
        ⊎ (one_of r.request.http_method handled ≡ false)
      → IsHandled os w l r (fail_with os w 405 r, w)

IsHandled-along :
    {W : Type 0} (os : Os W) (w : W) (l : Location) (r : ResponseBuilder)
    {x y : ResponseBuilder × W}
    → IsHandled os w l r x
    → y ≡ x
    → IsHandled os w l r y
IsHandled-along os w l r h e = subst (IsHandled os w l r) (sym e) h

abbrev pub routed : Location → ResponseBuilder → ResponseBuilder
routed l r = record r { routes = init_routes l.allowed_methods r.routes }

dispatch-routed :
    {W : Type 0} (os : Os W) (w : W) (l : Location) (r : ResponseBuilder) (h : Option Handler)
    → IsRoute l.allowed_methods r.request.http_method h
    → find_route r.request.http_method (routed l r).routes ≡ h
    → IsHandled os w l (routed l r) (dispatch os w l r)
unfolding dispatch run_handler
dispatch-routed os w l r _ (route_get a e) k =
    IsHandled-along os w l (routed l r)
      (by_get (subst (λ m. one_of m l.allowed_methods ≡ true) e a) e) (ground arith)
dispatch-routed os w l r _ (route_post a e) k =
    IsHandled-along os w l (routed l r)
      (by_post (subst (λ m. one_of m l.allowed_methods ≡ true) e a) e) (ground arith)
dispatch-routed os w l r _ (route_delete a e) k =
    IsHandled-along os w l (routed l r)
      (by_delete (subst (λ m. one_of m l.allowed_methods ≡ true) e a) e) (ground arith)
dispatch-routed os w l r _ (not_listed a) k =
    IsHandled-along os w l (routed l r) (refused (inl a)) (ground arith)
dispatch-routed os w l r _ (not_handled a) k =
    IsHandled-along os w l (routed l r) (refused (inr a)) (ground arith)

-- For a response without routes yet: the routes of the location are set, and then the request is
-- handled by `doGET`, `doPOST` or `doDELETE` if its method is GET, POST or DELETE and listed at the
-- location; otherwise the response is the error page for 405 and the machine stays as it is.
pub dispatch-IsHandled :
    {W : Type 0} (os : Os W) (w : W) (l : Location) (r : ResponseBuilder)
    → r.routes ≡ []
    → IsHandled os w l (routed l r) (dispatch os w l r)
dispatch-IsHandled os w l r e =
    let m = r.request.http_method in
    dispatch-routed os w l r _ (find_route-init_routes m l.allowed_methods)
      (ap (λ empty. find_route m (init_routes l.allowed_methods empty)) e)

dispatch_not_allowed :
    {W : Type 0} (os : Os W) (w : W) (l : Location) (r : ResponseBuilder)
    → r.routes ≡ []
    → (one_of r.request.http_method l.allowed_methods ≡ false)
      ⊎ (one_of r.request.http_method handled ≡ false)
    → ((dispatch os w l r).0.status_code ≡ 405) × ((dispatch os w l r).1 ≡ w)
unfolding dispatch
dispatch_not_allowed os w l r e bad =
    let m = r.request.http_method in
    let routes = init_routes l.allowed_methods r.routes in
    let status = status-fail_with os w 405 (record r { routes = routes }) in
    let missing : find_route m routes ≡ none =
      ap (λ empty. find_route m (init_routes l.allowed_methods empty)) e
      ∙ find_route-missing m l.allowed_methods bad in
    (ground arith, ground arith)

status-handle_redirection :
    {W : Type 0} (os : Os W) (w : W) (l : Location) (r : ResponseBuilder)
    → (handle_redirection os w l r).status_code
      ≡ (if l.is_redirect then (if l.is_redirect_permanent then 301 else 302) else r.status_code)
unfolding handle_redirection set_headers
status-handle_redirection os w l r =
    let code : ℕ = if l.is_redirect_permanent then 301 else 302 in
    ground (arith, status-fail_with os w code r)

status-answer_return :
    (l : Location) (r : ResponseBuilder) → (answer_return l r).status_code ≡ to_short l.return_code
unfolding answer_return set_body set_status set_headers
status-answer_return l r = ground arith

-- `build_response` for a request without an error, in front of the last headers: a location is set and
-- no routes are yet. If the method is not allowed at the location, or is none of GET, POST and DELETE,
-- the status is 405, unless the location has a `return` (then it is the return's code) or
-- a `redirect`, which comes before both (then it is 301 or 302); and nothing on the machine changes.
pub answer_not_allowed :
    {W : Type 0} (os : Os W) (w : W) (l : Location) (r : ResponseBuilder)
    → r.request.error_code ≡ 0
    → r.location_config ≡ some l
    → r.routes ≡ []
    → (one_of r.request.http_method l.allowed_methods ≡ false)
      ⊎ (one_of r.request.http_method handled ≡ false)
    → ((answer os w r).0.status_code ≡ (
        if l.is_redirect
        then (if l.is_redirect_permanent then 301 else 302)
        else if l.has_return
        then to_short l.return_code
        else 405))
      × ((answer os w r).1 ≡ w)
unfolding answer answer_at
answer_not_allowed os w l r good at e bad =
    let (not_allowed, same) = dispatch_not_allowed os w l r e bad in
    let returned = status-answer_return l r in
    let out = status-handle_redirection os w l (answer_return l r) in
    let out' = status-handle_redirection os (dispatch os w l r).1 l (dispatch os w l r).0 in
    elim (Bool-cases l.has_return) [
      | inl returns ↦ (ground (arith, out, returned), ground arith)
      | inr goes ↦ (ground (arith, out', not_allowed), ground (arith, same))
    ]
