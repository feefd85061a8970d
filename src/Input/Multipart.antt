-- ===== src/Input/Multipart.antt =====
-- Multipart bodies, src/input/multipart.rs.
use rouille.Common.{Option, none, some, [], ◌∷◌, ◌>>=◌, Text, text, split_once, strip_prefix}
use rouille.Common.Results.{Result}
use rouille.Http.Body.{Reader}
use rouille.Http.Request.{Request, Bodies, header, take_data}

pub data MultipartError : Type 0 where
  wrong_content_type : MultipartError
  body_already_extracted : MultipartError

-- `Display`
unfoldable describe : MultipartError → Text
describe wrong_content_type =
    text
      "the `Content-Type` header of the request indicates that it doesn't contain multipart data or is invalid"
describe body_already_extracted =
    text "can't parse the body of the request because it was already extracted"

-- The body and the boundary that `InnerMultipart::with_body` is given.
pub record Multipart : Type 0 where
  pub request_body : Reader
  pub boundary : Text

pub data MultipartResult : Type 0 where
  ok : Multipart → MultipartResult
  err : MultipartError → MultipartResult

-- What follows the first occurrence of a text.
unfoldable after_first : Text → Text → Option Text
after_first p [] = strip_prefix p []
after_first p (c ∷ s) = elim (strip_prefix p (c ∷ s)) [
  | none ↦ after_first p s
  | some rest ↦ some rest
]

unfoldable multipart_boundary : Request → Option Text
multipart_boundary request = header request (text "Content-Type") >>= (λ content_type.
    after_first (text "boundary=") content_type >>= (λ rest. some (split_once b';' rest).0))

abbrev with_boundary : Text → Option Reader → MultipartResult
with_boundary boundary none = err body_already_extracted
with_boundary boundary (some body) = ok (record { request_body = body; boundary = boundary })

unfoldable pub get_multipart_input : Request → Bodies → MultipartResult × Bodies
unfolding after_first multipart_boundary take_data
get_multipart_input request bodies = elim (multipart_boundary request) [
  | none ↦ (err wrong_content_type, bodies)
  | some boundary ↦
      let (body, rest) = take_data request bodies in (with_boundary boundary body, rest)
]

-- `read_entry` of the multipart crate
module _ {Inner Entry E : Type 0} (read_entry : Inner → Result (Option Entry) E × Inner) where
  -- `unwrap_or(None)`
  abbrev entry_or_none : Result (Option Entry) E → Option Entry
  entry_or_none (Result.ok entry) = entry
  entry_or_none (Result.err e) = none

  -- `Multipart::next`
  unfoldable next : Inner → Option Entry × Inner
  next inner = let (result, inner') = read_entry inner in (entry_or_none result, inner')
