-- ===== src/Input/Plain.antt =====
-- Plain text bodies, src/input/plain.rs.
pub mod Limit
pub mod Sources
use rouille.Common.{
  ℕ, suc, ltb, if◌then◌else◌, ◌*◌, ◌^◌, ◌<◌, ◌-◌, Option, none, some, Text, text, Bytes, length,
  starts_with,
}
use rouille.Common.Utf8.{from_utf8}
use rouille.Http.Body.{Reader, read_to_end, take_bytes}
use rouille.Http.Request.{Request, Bodies, header, take_data}

pub data PlainTextError : Type 0 where
  body_already_extracted : PlainTextError
  wrong_content_type : PlainTextError
  io_error : PlainTextError
  limit_exceeded : PlainTextError
  not_utf8 : PlainTextError

-- `Display`
unfoldable pub describe : PlainTextError → Text
describe body_already_extracted = text "the body of the request was already extracted"
describe wrong_content_type = text "the request didn't have a plain text content type"
describe io_error =
    text "could not read the body from the request, or could not execute the CGI program"
describe limit_exceeded = text "the limit to the number of bytes has been exceeded"
describe not_utf8 =
    text "the content-type encoding is not ASCII or UTF-8, or the body is not valid UTF-8"

pub data PlainTextResult : Type 0 where
  ok : Text → PlainTextResult
  err : PlainTextError → PlainTextResult

-- `usize::saturating_add(1)` on 64 bits
abbrev saturating_suc : ℕ → ℕ
saturating_suc n = if ltb n (2 ^ 64 - 1) then suc n else 2 ^ 64 - 1

abbrev pub decoded : Option Text → PlainTextResult
decoded none = err not_utf8
decoded (some out) = ok out

abbrev limited : ℕ → Option Bytes → PlainTextResult
limited limit none = err io_error
limited limit (some out) =
    if ltb limit (length out) then err limit_exceeded else decoded (from_utf8 out)

abbrev pub from_body : ℕ → Option Reader → PlainTextResult
from_body limit none = err body_already_extracted
from_body limit (some body) = limited limit (read_to_end (take_bytes (saturating_suc limit) body))

unfoldable pub plain_text_body_with_limit : Request → ℕ → Bodies → PlainTextResult × Bodies
unfolding take_data
plain_text_body_with_limit request limit bodies = elim (header request (text "Content-Type")) [
  | none ↦ (err wrong_content_type, bodies)
  | some content_type ↦
      let (body, rest) = take_data request bodies in
      if starts_with (text "text/plain") content_type
      then (from_body limit body, rest)
      else (err wrong_content_type, bodies)
]

unfoldable pub plain_text_body : Request → Bodies → PlainTextResult × Bodies
unfolding plain_text_body_with_limit
plain_text_body request = plain_text_body_with_limit request (1024 * 1024)
