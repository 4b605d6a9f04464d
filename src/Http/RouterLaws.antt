-- ===== src/Http/RouterLaws.antt =====
-- What a registered route answers, and what it leaves alone.
use red_culture_service.Common.{
  ◌≡◌, ◌≢◌, refl, inl, inr, ◌⊎◌, ap, ◌∙◌, subst, String, none, some, str_dec, Option-cases, List,
}
use red_culture_service.Common.Map.{lookup, lookup-insert_same, lookup-insert_ne}
use red_culture_service.Http.Types.{HttpRequest}
use red_culture_service.Http.Router.{Handler, HttpRouter, normalize_method, add_route, route}

-- A request is answered by the handler that was registered last for its path and its method, the
-- case of the method's letters aside.
pub route-add_route :
    (r : HttpRouter) (method : String) (handler : Handler) (request : HttpRequest)
    → normalize_method method ≡ normalize_method request.method
    → route (add_route r method request.path handler) request ≡ handler request
unfolding route add_route
route-add_route r method handler request same_method =
    rw (route, lookup-insert_same str_dec, same_method) (rw (lookup-insert_same str_dec))

-- A route for another path does not change the answer.
route_other_path :
    (r : HttpRouter) (method path : String) (handler : Handler) (request : HttpRequest)
    → request.path ≢ path
    → route (add_route r method path handler) request ≡ route r request
unfolding route add_route
route_other_path r method path handler request ne =
    rw (route, lookup-insert_ne str_dec request.path path _ r.routes ne) refl

-- Nor does one for another method of a path that has a route.
route_other_method :
    (r : HttpRouter) (method : String) (handler : Handler) (request : HttpRequest)
    (methods : List (String × Handler))
    → lookup str_dec request.path r.routes ≡ some methods
    → normalize_method request.method ≢ normalize_method method
    → route (add_route r method request.path handler) request ≡ route r request
unfolding route add_route
route_other_method r method handler request methods e ne =
    rw (route, e, lookup-insert_same str_dec)
      (rw
        (lookup-insert_ne str_dec (normalize_method request.method) (normalize_method method)
          handler methods ne)
        refl)

-- Registering a route for another path, or for another method of a path that had a route, does not
-- change the answer.
pub route-add_route_other :
    (r : HttpRouter) (method path : String) (handler : Handler) (request : HttpRequest)
    → (request.path ≢ path)
      ⊎ ((normalize_method request.method ≢ normalize_method method)
          × (lookup str_dec path r.routes ≢ none))
    → route (add_route r method path handler) request ≡ route r request
route-add_route_other r method path handler request (inl ne) =
    route_other_path r method path handler request ne
route-add_route_other r method path handler request (inr (ne, there)) =
    elim (str_dec request.path path) [
      | no other ↦ route_other_path r method path handler request other
      | yes q ↦ elim (Option-cases (lookup str_dec path r.routes)) [
        | inl e ↦ absurd (there e)
        | inr (methods, e) ↦
            let stored = ap (λ k. lookup str_dec k r.routes) q ∙ e in
            subst (λ k. route (add_route r method k handler) request ≡ route r request) q
              (route_other_method r method handler request methods stored ne)
      ]
    ]
