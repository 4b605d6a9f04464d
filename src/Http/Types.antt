-- ===== src/Http/Types.antt =====
-- The structs of include/rcs/http/http_types.hpp and the answers of src/http/http_types.cpp.
use red_culture_service.Common.{ℕ, String, List, []}

pub record HttpRequest : Type 0 where
  pub method : String
  pub target : String
  pub path : String
  pub query : String
  pub body : String
  pub headers : List (String × String)
  pub remote_address : String
  pub remote_port : ℕ

pub record HttpResponse : Type 0 where
  pub status_code : ℕ
  pub content_type : String
  pub body : String
  pub headers : List (String × String)

abbrev pub plain_text : String
plain_text = "text/plain; charset=utf-8"

unfoldable pub json : ℕ → String → HttpResponse
json status_code body = record {
  status_code = status_code;
  content_type = "application/json; charset=utf-8";
  body = body;
  headers = [];
}

unfoldable pub text : ℕ → String → String → HttpResponse
text status_code body content_type = record {
  status_code = status_code;
  content_type = content_type;
  body = body;
  headers = [];
}

unfoldable pub no_content : HttpResponse
no_content = record { status_code = 204; content_type = plain_text; body = ""; headers = [] }

unfoldable pub not_found : HttpResponse
unfolding text
not_found = text 404 "not found" plain_text

unfoldable pub bad_request : String → HttpResponse
unfolding text
bad_request message = text 400 message plain_text

unfoldable pub internal_error : String → HttpResponse
unfolding text
internal_error message = text 500 message plain_text
