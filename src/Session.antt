-- ===== src/Session.antt =====
-- Sessions, src/session.rs.
pub mod SetCookie
pub mod RoundTrip
mod Tests
use rouille.Common.{
  ℕ, ltb, length, ◌≡◌, refl, Bool, true, false, Option, none, some, List, [], ◌∷◌, ◌++◌, ◌||◌, take,
  retain, within, if◌then◌else◌, find, Text, text, text_eq, decimal, arith,
}
use rouille.Http.Request.{Request}
use rouille.Http.Response.{Response, with_additional_header}
use rouille.Input.Cookies.{cookies, collect}

-- `key_was_retrieved` is the atomic cell, passed on by each operation.
pub record Session : Type 0 where
  pub key_was_retrieved : Bool
  pub key_was_given : Bool
  pub key : Text

abbrev pub client_has_sid : Session → Bool
client_has_sid session = session.key_was_given

unfoldable pub id : Session → Text × Session
id session = (session.key, record session { key_was_retrieved = true })

abbrev from_cookie : Text → Option (Text × Text) → Session
from_cookie generated none = record {
  key_was_retrieved = false;
  key_was_given = false;
  key = generated;
}
from_cookie generated (some kv) = record {
  key_was_retrieved = false;
  key_was_given = true;
  key = kv.1;
}

abbrev pub is_ascii_letter_or_digit : ℕ → Bool
is_ascii_letter_or_digit c = within b'a' b'z' c || within b'A' b'Z' c || within b'0' b'9' c

-- From the samples that the random generator has given so far. It never ends, and with `none` more
-- of them are to be drawn.
unfoldable pub generate_session_id : List ℕ → Option Text
generate_session_id samples =
    let kept = retain is_ascii_letter_or_digit samples in
    if ltb (length kept) 64 then none else some (take 64 kept)

-- `generated` is what `generate_session_id` would give.
unfoldable pub open_session : Request → Text → Text → Session
open_session request cookie_name generated =
    from_cookie generated (find (λ kv. text_eq kv.0 cookie_name) (collect (cookies request)))

unfoldable pub cookie_header : Text → Text → ℕ → Text
cookie_header cookie_name key timeout_s =
    cookie_name
    ++ text "="
    ++ key
    ++ text "; Max-Age="
    ++ decimal timeout_s
    ++ text "; Path=/; HttpOnly"

-- The end of `session`, with what the handler gave and the session as it then is.
unfoldable pub close_session : Text → ℕ → Response × Session → Response
unfolding cookie_header
close_session cookie_name timeout_s (response, after) =
    if after.key_was_retrieved
    then record response {
      headers =
          response.headers
          ++ (text "Set-Cookie", cookie_header cookie_name after.key timeout_s) ∷ [];
    }
    else response

unfoldable pub session : Request → Text → ℕ → Text → (Session → Response × Session) → Response
unfolding open_session close_session
session request cookie_name timeout_s generated inner =
    close_session cookie_name timeout_s (inner (open_session request cookie_name generated))
