-- ===== src/Http/Response.antt =====
-- `Response` of src/response.rs: its constructors and the operations that change its headers.
pub mod UniqueHeader
pub mod Etag
pub mod Caching
use rouille.Common.{
  ℕ, ◌+◌, Bool, true, false, not, ◌&&◌, ◌||◌, Option, none, some, List, [], ◌∷◌, ◌++◌, ltb, leb,
  ◌==◌, if◌then◌else◌, Bytes, Text, text as literal, text_eq, eq_ignore_ascii_case, retain,
}
use rouille.Http.Body
use rouille.Http.Body.{Reader, ResponseBody}
use rouille.Http.Request.{Request, header}

-- `upgrade` is the identity of the boxed `Upgrade` object.
pub record Response : Type 0 where
  pub status_code : ℕ
  pub headers : List (Text × Text)
  pub data_body : ResponseBody
  pub upgrade : Option ℕ

unfoldable pub is_success : Response → Bool
is_success r = leb 200 r.status_code && ltb r.status_code 400

unfoldable pub is_error : Response → Bool
unfolding is_success
is_error r = not (is_success r)

abbrev redirect : ℕ → Text → Response
redirect status target = record {
  status_code = status;
  headers = (literal "Location", target) ∷ [];
  data_body = Body.empty;
  upgrade = none;
}

unfoldable redirect_301 : Text → Response
redirect_301 target = redirect 301 target

unfoldable pub redirect_302 : Text → Response
redirect_302 target = redirect 302 target

unfoldable pub redirect_303 : Text → Response
redirect_303 target = redirect 303 target

unfoldable redirect_307 : Text → Response
redirect_307 target = redirect 307 target

unfoldable redirect_308 : Text → Response
redirect_308 target = redirect 308 target

abbrev typed : Text → ResponseBody → Response
typed content_type body = record {
  status_code = 200;
  headers = (literal "Content-Type", content_type) ∷ [];
  data_body = body;
  upgrade = none;
}

unfoldable pub from_data : Text → Bytes → Response
from_data content_type bytes = typed content_type (Body.from_data bytes)

unfoldable pub from_file : Text → Reader → Option ℕ → Response
from_file content_type file metadata_len = typed content_type (Body.from_file file metadata_len)

unfoldable pub html : Text → Response
html content = typed (literal "text/html; charset=utf-8") (Body.from_string content)

unfoldable pub svg : Text → Response
svg content = typed (literal "image/svg+xml; charset=utf-8") (Body.from_string content)

unfoldable pub text : Text → Response
text content = typed (literal "text/plain; charset=utf-8") (Body.from_string content)

-- `serde_json::to_string(content).unwrap()` is the argument.
unfoldable pub json : Text → Response
json serialized = typed (literal "application/json; charset=utf-8") (Body.from_string serialized)

unfoldable basic_http_auth_login_required : Text → Response
basic_http_auth_login_required realm = record {
  status_code = 401;
  headers = (literal "WWW-Authenticate", literal "Basic realm=\"" ++ realm ++ literal "\"") ∷ [];
  data_body = Body.empty;
  upgrade = none;
}

abbrev empty_status : ℕ → Response
empty_status status = record {
  status_code = status;
  headers = [];
  data_body = Body.empty;
  upgrade = none;
}

unfoldable pub empty_204 : Response
empty_204 = empty_status 204

unfoldable pub empty_400 : Response
empty_400 = empty_status 400

unfoldable pub empty_404 : Response
empty_404 = empty_status 404

unfoldable pub empty_406 : Response
empty_406 = empty_status 406

unfoldable pub with_status_code : ℕ → Response → Response
with_status_code code r = record r { status_code = code }

abbrev pub is_header : Text → Text × Text → Bool
is_header name (h, v) = eq_ignore_ascii_case h name

unfoldable pub without_header : Text → Response → Response
without_header name r = record r { headers = retain (λ h. not (is_header name h)) r.headers }

unfoldable pub with_additional_header : Text → Text → Response → Response
with_additional_header name value r = record r { headers = r.headers ++ (name, value) ∷ [] }

-- The first `retain` of `with_unique_header`: all but the first match goes; the flag is `found_one`.
unfoldable pub retain_first : Text → Bool → List (Text × Text) → List (Text × Text) × Bool
retain_first name found_one [] = ([], found_one)
retain_first name found_one ((h, v) ∷ hs) =
    let matching = eq_ignore_ascii_case h name in
    let (rest, found) = retain_first name (found_one || matching) hs in
    if matching && found_one then (rest, found) else ((h, v) ∷ rest, found)

-- The loop behind it: the first match gets the value.
unfoldable pub set_first : Text → Text → List (Text × Text) → List (Text × Text)
set_first name value [] = []
set_first name value ((h, v) ∷ hs) =
    if eq_ignore_ascii_case h name then (h, value) ∷ hs else (h, v) ∷ set_first name value hs

unfoldable pub with_unique_header : Text → Text → Response → Response
unfolding retain_first set_first with_additional_header
with_unique_header name value r =
    let (kept, found_one) = retain_first name false r.headers in
    if found_one
    then record r { headers = set_first name value kept }
    else with_additional_header name value (record r { headers = kept })
