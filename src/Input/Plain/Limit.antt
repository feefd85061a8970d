-- ===== src/Input/Plain/Limit.antt =====
-- The limit of `plain_text_body_with_limit`.
use rouille.Common.{
  ℕ, suc, zero, ◌≡◌, ◌≤◌, ◌<◌, ◌^◌, ◌-◌, some, [], ◌∷◌, true, Text, text, Bytes, length, take,
  starts_with, arith,
}
use rouille.Common.Utf8.{as_bytes, IsText, from_utf8-as_bytes}
use rouille.Http.Body.{Reader, cursor}
use rouille.Http.Request.{Request, Bodies, header, take_data, taken}
use rouille.Input.Plain.{ok, err, limit_exceeded, plain_text_body_with_limit}

length-take-suc : (n : ℕ) (s : Bytes) → n < length s → length (take (suc n) s) ≡ suc n
length-take-suc zero (c ∷ s) h = ground arith
length-take-suc (suc n) (c ∷ s) h = ground (arith, length-take-suc n s (ground arith))
length-take-suc n [] h = absurd (omega arith)

-- A request of the type `text/plain` whose body is there and encodes a text of at most `limit`
-- bytes, for a limit below the maximum of `usize`: the text is given back, and the body is taken.
pub plain_text_body_within :
    (r : Request) (limit : ℕ) (bodies : Bodies) (content_type content : Text)
    → header r (text "Content-Type") ≡ some content_type
    → starts_with (text "text/plain") content_type ≡ true
    → bodies r.shared_data ≡ some (cursor (as_bytes content))
    → IsText content
    → length (as_bytes content) ≤ limit
    → limit < 2 ^ 64 - 1
    → plain_text_body_with_limit r limit bodies ≡ (ok content, taken r.shared_data bodies)
unfolding plain_text_body_with_limit take_data
plain_text_body_within r limit bodies content_type content h p b t l m =
    ground (arith, from_utf8-as_bytes content t)

-- A request of the type `text/plain` whose body brings more bytes than `limit`, for a limit below the maximum
-- of `usize`: the result is the error `LimitExceeded`, also where the body could not be read to its
-- end, and the body is taken.
pub plain_text_body_exceeded :
    (r : Request) (limit : ℕ) (bodies : Bodies) (content_type : Text) (body : Reader)
    → header r (text "Content-Type") ≡ some content_type
    → starts_with (text "text/plain") content_type ≡ true
    → bodies r.shared_data ≡ some body
    → limit < length body.content
    → limit < 2 ^ 64 - 1
    → plain_text_body_with_limit r limit bodies ≡ (err limit_exceeded, taken r.shared_data bodies)
unfolding plain_text_body_with_limit take_data
plain_text_body_exceeded r limit bodies content_type body h p b l m =
    ground (arith, length-take-suc limit body.content (omega arith))
