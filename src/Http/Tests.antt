-- ===== src/Http/Tests.antt =====
-- Requests and responses that the theorems on src/lib.rs and src/response.rs are applied to.
use rouille.Common.{
  ◌≡◌, refl, false, none, some, [], ◌∷◌, Bytes, Text, text as literal, starts_with, split_once,
}
use rouille.Common.Utf8.{as_bytes}
use rouille.Http.Body
use rouille.Http.Request.{Request, Bodies, stored, remove_prefix}
use rouille.Http.Response.{Response, with_unique_header}
use rouille.Http.Response.UniqueHeader.{HasOnly, with_unique_header-HasOnly}

-- A decoding that changes no byte.
abbrev as_it_is : Bytes → Text
as_it_is bytes = bytes

abbrev request : Request
request = record {
  method = literal "GET";
  url = literal "/a/b?x=1&y=2+3";
  headers = (literal "if-none-match", literal "v1") ∷ (literal "Host", literal "h") ∷ [];
  https = false;
  shared_data = 0;
  remote_addr = none;
}

abbrev response : Response
response = record {
  status_code = 200;
  headers =
      (literal "etag", literal "v0")
      ∷ (literal "Server", literal "s")
      ∷ (literal "ETag", literal "v1")
      ∷ [];
  data_body = Body.empty;
  upgrade = none;
}

abbrev one_body : Bodies
one_body = stored 0 (Body.cursor (1 ∷ [])) (λ i. none)

with_unique_header-HasOnly_example :
    HasOnly
      (literal "ETag")
      (literal "v2")
      response
      (with_unique_header (literal "ETag") (literal "v2") response)
with_unique_header-HasOnly_example =
    with_unique_header-HasOnly (literal "ETag") (literal "v2") response

abbrev short : Request
short = record request { url = literal "/b?x=1&y=2+3" }

request_shortened : remove_prefix as_it_is request (literal "/a") ≡ some (some short)
unfolding literal remove_prefix starts_with split_once as_bytes
request_shortened = refl
