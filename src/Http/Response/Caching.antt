-- ===== src/Http/Response/Caching.antt =====
-- The cache headers and the attachment header of `Response` in src/response.rs.
pub mod Headers
use rouille.Common.{
  ℕ, Bool, true, false, List, [], ◌∷◌, ◌++◌, if◌then◌else◌, Bytes, Text, text as literal, decimal,
  eq_ignore_ascii_case,
}
use rouille.Common.Utf8.{as_bytes}
use rouille.Http.Response.{Response, with_unique_header, without_header}

abbrev cache_for : Text → ℕ → Response → Response
cache_for kind max_age_seconds r = without_header (literal "Pragma") (
    without_header (literal "Expires") (
      with_unique_header (literal "Cache-Control")
        (kind ++ literal ", max-age=" ++ decimal max_age_seconds) r))

unfoldable pub with_public_cache : ℕ → Response → Response
with_public_cache = cache_for (literal "public")

unfoldable with_private_cache : ℕ → Response → Response
with_private_cache = cache_for (literal "private")

unfoldable with_no_cache : Response → Response
with_no_cache r = with_unique_header (literal "Pragma") (literal "no-cache") (
    with_unique_header (literal "Expires") (literal "0") (
      with_unique_header (literal "Cache-Control") (literal "no-cache, no-store, must-revalidate")
        r))

-- The loop over the headers, and whether the value was not used.
unfoldable replace_disposition : Text → List (Text × Text) → List (Text × Text) × Bool
replace_disposition value [] = ([], true)
replace_disposition value ((key, val) ∷ hs) =
    let (rest, left) = replace_disposition value hs in
    if eq_ignore_ascii_case key (literal "Content-Disposition")
    then ((key, value) ∷ hs, false)
    else ((key, val) ∷ rest, left)

-- `percent_encoding::percent_encode` with the set `DEFAULT_ENCODE_SET`
module _ (percent_encode : Bytes → Text) where
  unfoldable with_content_disposition_attachment : Text → Response → Response
  unfolding replace_disposition
  with_content_disposition_attachment filename r =
      let value = literal "attachment; filename*=UTF8''" ++ percent_encode (as_bytes filename) in
      let (changed, left) = replace_disposition value r.headers in
      record r {
        headers = if left then changed ++ (literal "Content-Disposition", value) ∷ [] else changed;
      }
