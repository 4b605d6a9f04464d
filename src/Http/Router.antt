-- ===== src/Http/Router.antt =====
-- src/http/http_router.cpp. A handler is the function that it computes; the router's lock makes each
-- operation atomic. The warnings that `route` logs are left out.
use Prim.Native.Char.{Char, char, code, IsScalar}
use red_culture_service.Common.{
  ℕ, ◌-◌, ◌≤◌, String, Bool, false, List, [], Option, none, some, str_dec, is_some, dec_le, arith,
}
use red_culture_service.Common.Map.{lookup, insert}
use red_culture_service.Http.Types.{HttpRequest, HttpResponse, text, not_found, plain_text}

abbrev pub Handler : Type 0
Handler = HttpRequest → HttpResponse

pub record HttpRouter : Type 0 where
  pub routes : List (String × List (String × Handler))

pub ascii-IsScalar : (n : ℕ) → n ≤ 122 → IsScalar n
ascii-IsScalar n h = ground arith

-- `std::toupper` in the "C" locale: the letters a to z; other bytes stay.
unfoldable pub to_upper : Char → Char
unfolding ascii-IsScalar
to_upper c = elim (dec_le 97 (code c)) [
  | no low ↦ c
  | yes above ↦ elim (dec_le (code c) 122) [
    | no high ↦ c
    | yes below ↦ char (code c - 32) (ascii-IsScalar (code c - 32) (omega arith))
  ]
]

unfoldable pub normalize_method : String → String
unfolding to_upper
normalize_method String.[] = ""
normalize_method (String.◌∷◌ c s) = String.◌∷◌ (to_upper c) (normalize_method s)

-- `routes_[path]`, the map of a path that has no route yet being empty
abbrev pub methods_or_empty : Option (List (String × Handler)) → List (String × Handler)
methods_or_empty none = []
methods_or_empty (some methods) = methods

unfoldable pub add_route : HttpRouter → String → String → Handler → HttpRouter
unfolding normalize_method
add_route r method path handler =
    let methods = methods_or_empty (lookup str_dec path r.routes) in
    record {
      routes =
          insert str_dec path (insert str_dec (normalize_method method) handler methods) r.routes;
    }

unfoldable pub get : HttpRouter → String → Handler → HttpRouter
unfolding add_route
get r path handler = add_route r "GET" path handler

unfoldable pub post : HttpRouter → String → Handler → HttpRouter
unfolding add_route
post r path handler = add_route r "POST" path handler

unfoldable pub put : HttpRouter → String → Handler → HttpRouter
unfolding add_route
put r path handler = add_route r "PUT" path handler

unfoldable pub del : HttpRouter → String → Handler → HttpRouter
unfolding add_route
del r path handler = add_route r "DELETE" path handler

unfoldable pub route : HttpRouter → HttpRequest → HttpResponse
unfolding normalize_method
route r request = elim (lookup str_dec request.path r.routes) [
  | none ↦ not_found
  | some methods ↦ elim (lookup str_dec (normalize_method request.method) methods) [
    | none ↦ text 405 "method not allowed" plain_text
    | some handler ↦ handler request
  ]
]

unfoldable pub has_route : HttpRouter → String → String → Bool
unfolding normalize_method
has_route r method path = elim (lookup str_dec path r.routes) [
  | none ↦ false
  | some methods ↦ is_some (lookup str_dec (normalize_method method) methods)
]
