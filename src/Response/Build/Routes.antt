-- ===== src/Response/Build/Routes.antt =====
-- Which handler answers a method.
use webserv_team.Base.{
  ℕ, ◌≡◌, refl, sym, ◌⊎◌, inl, inr, Bool, true, false, not, Option, none, some, List, [], ◌∷◌, ◌++◌,
  arith, if◌then◌else◌, Bool-cases, Option-cases, Bytes, codes, is_empty, ◌=ᵇ◌, =ᵇ_iff,
}
use webserv_team.Config.{find_page}
use webserv_team.Request.Setters.{one_of}
use webserv_team.Response.{
  Os, Handler, do_get, do_post, do_delete, ResponseBuilder, set_status, set_headers,
}
use webserv_team.Response.Pages.{fail_with, error_page, custom_page, read_file}
use webserv_team.Response.Build.{find_route, handler_of, add_route, init_routes}
use mathlib.Core.Path.{subst}

find_route-append :
    (m k : Bytes) (h : Handler) (routes : List (Bytes × Handler))
    → find_route m (routes ++ (k, h) ∷ [])
      ≡ elim (find_route m routes) [ none ↦ if k =ᵇ m then some h else none | some h' ↦ some h' ]
unfolding find_route
find_route-append m k h [] = refl
find_route-append m k h ((j, h') ∷ routes) = ground (arith, find_route-append m k h routes)

find_route-add_route :
    (m k : Bytes) (routes : List (Bytes × Handler))
    → find_route m (add_route k routes) ≡ elim (find_route m routes) [
      | none ↦ if k =ᵇ m then handler_of m else none
      | some h ↦ some h
    ]
unfolding add_route
find_route-add_route m k routes =
    let split = =ᵇ_iff k m in
    elim (Option-cases (handler_of k)) [
      | inl unknown ↦ elim (Option-cases (find_route m routes)) [
        | inl e ↦ ground (arith, split)
        | inr (h, e) ↦ ground (arith, split)
      ]
      | inr (h, known) ↦ elim (Option-cases (find_route k routes)) [
        | inl e ↦ ground (arith, split, find_route-append m k h routes)
        | inr (h', e) ↦ elim (Option-cases (find_route m routes)) [
          | inl e' ↦ ground (arith, split)
          | inr (h'', e') ↦ ground (arith, split)
        ]
      ]
    ]

find_route-init_routes_from :
    (m : Bytes) (methods : List Bytes) (routes : List (Bytes × Handler))
    → find_route m (init_routes methods routes) ≡ elim (find_route m routes) [
      | none ↦ if one_of m methods then handler_of m else none
      | some h ↦ some h
    ]
unfolding init_routes one_of
find_route-init_routes_from m [] routes = elim (Option-cases (find_route m routes)) [
  | inl e ↦ ground arith
  | inr (h, e) ↦ ground arith
]
find_route-init_routes_from m (k ∷ ks) routes =
    let ih = find_route-init_routes_from m ks (add_route k routes) in
    let one = find_route-add_route m k routes in
    elim (Option-cases (find_route m routes)) [
      | inl e ↦ elim (Option-cases (handler_of m)) [
        | inl e' ↦ ground (arith, ih, one, =ᵇ_iff k m, =ᵇ_iff m k)
        | inr (h, e') ↦ ground (arith, ih, one, =ᵇ_iff k m, =ᵇ_iff m k)
      ]
      | inr (h, e) ↦ ground (arith, ih, one)
    ]

-- The methods that the server has a handler for.
abbrev pub handled : List Bytes
handled = codes "GET" ∷ codes "POST" ∷ codes "DELETE" ∷ []

-- The handler that a location has for a method: `doGET`, `doPOST` and `doDELETE` for their methods
-- where these are listed, and none for a method that is not listed or has none of these names.
pub data IsRoute (methods : List Bytes) (m : Bytes) : Option Handler → Type 0 where
  route_get : one_of m methods ≡ true → m ≡ codes "GET" → IsRoute methods m (some do_get)
  route_post : one_of m methods ≡ true → m ≡ codes "POST" → IsRoute methods m (some do_post)
  route_delete : one_of m methods ≡ true → m ≡ codes "DELETE" → IsRoute methods m (some do_delete)
  not_listed : one_of m methods ≡ false → IsRoute methods m none
  not_handled : one_of m handled ≡ false → IsRoute methods m none

IsRoute-along :
    (methods : List Bytes) (m : Bytes) {h k : Option Handler}
    → IsRoute methods m h
    → k ≡ h
    → IsRoute methods m k
IsRoute-along methods m r e = subst (IsRoute methods m) (sym e) r

-- The routes of a location hold exactly the methods that it allows and that have a handler, each with
-- its own handler (`doGET` for GET, `doPOST` for POST, `doDELETE` for DELETE), in whatever order and
-- however often they are listed.
pub find_route-init_routes :
    (m : Bytes) (methods : List Bytes) → IsRoute methods m (find_route m (init_routes methods []))
unfolding find_route handler_of one_of
find_route-init_routes m methods =
    let all = find_route-init_routes_from m methods [] in
    elim (Bool-cases (one_of m methods)) [
      | inr out ↦ IsRoute-along methods m (not_listed out) (ground (arith, all))
      | inl listed ↦ elim (Bool-cases (m =ᵇ codes "GET")) [
        | inl g ↦
            IsRoute-along methods m (route_get listed (ground (arith, =ᵇ_iff m (codes "GET"))))
              (ground (arith, all))
        | inr g ↦ elim (Bool-cases (m =ᵇ codes "POST")) [
          | inl p ↦
              IsRoute-along methods m (route_post listed (ground (arith, =ᵇ_iff m (codes "POST"))))
                (ground (arith, all))
          | inr p ↦ elim (Bool-cases (m =ᵇ codes "DELETE")) [
            | inl d ↦
                IsRoute-along methods m
                  (route_delete listed (ground (arith, =ᵇ_iff m (codes "DELETE"))))
                  (ground (arith, all))
            | inr d ↦ IsRoute-along methods m (not_handled (ground arith)) (ground (arith, all))
          ]
        ]
      ]
    ]

pub find_route-missing :
    (m : Bytes) (methods : List Bytes)
    → (one_of m methods ≡ false) ⊎ (one_of m handled ≡ false)
    → find_route m (init_routes methods []) ≡ none
unfolding find_route handler_of one_of
find_route-missing m methods bad =
    let all = find_route-init_routes_from m methods [] in
    elim bad [
      | inl out ↦ ground (arith, all)
      | inr unknown ↦ elim (Bool-cases (one_of m methods)) [
        | inl a ↦ ground (arith, all)
        | inr b ↦ ground (arith, all)
      ]
    ]

status-read_file :
    {W : Type 0} (os : Os W) (w : W) (f : Bytes) (r : ResponseBuilder)
    → (read_file os w f r).1.status_code ≡ r.status_code
unfolding read_file set_headers
status-read_file os w f r = elim (Option-cases (os.content_of f w)) [
  | inl e ↦ ground arith
  | inr (text, e) ↦ ground arith
]

status-custom_page :
    {W : Type 0} (os : Os W) (w : W) (r : ResponseBuilder)
    → (custom_page os w r).1.status_code ≡ r.status_code
unfolding custom_page
status-custom_page os w r = elim (Option-cases r.server_config) [
  | inl e ↦ ground arith
  | inr (server, e) ↦ elim (Option-cases (find_page r.status_code server.error_pages)) [
    | inl e' ↦ ground arith
    | inr (name, e') ↦ ground (arith, status-read_file os w name r)
  ]
]

status-either :
    (b : Bool) (x y : ResponseBuilder) (n : ℕ)
    → x.status_code ≡ n
    → y.status_code ≡ n
    → (if b then x else y).status_code ≡ n
status-either true x y n p q = p
status-either false x y n p q = q

pub status-fail_with :
    {W : Type 0} (os : Os W) (w : W) (code : ℕ) (r : ResponseBuilder)
    → (fail_with os w code r).status_code ≡ code
unfolding fail_with error_page set_status set_headers
status-fail_with os w code r =
    let kept = status-custom_page os w (set_status code r) in
    status-either (not (is_empty (custom_page os w (set_status code r)).0)) _ _ code kept kept
