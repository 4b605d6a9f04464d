-- ===== src/Http/Tests.antt =====
-- The theorems on the router at concrete inputs.
use red_culture_service.Common.{◌≡◌, refl, inl, [], str_dec, dec_le}
use red_culture_service.Http.Types.{HttpRequest, text, plain_text}
use red_culture_service.Http.Router.{HttpRouter, Handler, normalize_method, add_route, route}
use red_culture_service.Http.RouterLaws.{route-add_route, route-add_route_other}

abbrev no_routes : HttpRouter
no_routes = record { routes = [] }

abbrev request : HttpRequest
request = record {
  method = "GET";
  target = "/health";
  path = "/health";
  query = "";
  body = "";
  headers = [];
  remote_address = "";
  remote_port = 0;
}

abbrev answers_ok : Handler
unfolding text
answers_ok r = text 200 "ok" plain_text

route-add_route_example :
    route (add_route no_routes "get" "/health" answers_ok) request ≡ answers_ok request
unfolding normalize_method dec_le
route-add_route_example = route-add_route no_routes "get" answers_ok request refl

route-add_route_other_example :
    route (add_route no_routes "GET" "/other" answers_ok) request ≡ route no_routes request
unfolding str_dec
route-add_route_other_example =
    route-add_route_other no_routes "GET" "/other" answers_ok request (inl (λ q. cc))
