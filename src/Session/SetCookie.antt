-- ===== src/Session/SetCookie.antt =====
-- When `session` sets its cookie.
use rouille.Common.{ℕ, ◌≡◌, some, [], ◌∷◌, ◌++◌, find, Text, text, text_eq, arith}
use rouille.Http.Request.{Request}
use rouille.Http.Response.{Response}
use rouille.Input.Cookies.{cookies, collect}
use rouille.Session.{Session, session, open_session, cookie_header, id}

-- A handler that makes its response from the identifier.
abbrev pub with_id : (Text → Response) → Session → Response × Session
with_id f s = (f (id s).0, (id s).1)

-- A handler that does not ask for the identifier.
abbrev pub without_id : Response → Session → Response × Session
without_id r s = (r, s)

-- Where the cookie of the name is in the request with a key: a handler that makes its response from
-- the identifier is given that key, and the same cookie is set behind its headers; the response of
-- a handler that does not ask for the identifier is not changed.
pub session_same :
    (request : Request) (cookie_name key : Text) (timeout_s : ℕ) (generated : Text)
    (f : Text → Response) (r : Response)
    → find (λ kv. text_eq kv.0 cookie_name) (collect (cookies request)) ≡ some (cookie_name, key)
    → (session request cookie_name timeout_s generated (with_id f) ≡ record (f key) {
      headers =
          (f key).headers ++ (text "Set-Cookie", cookie_header cookie_name key timeout_s) ∷ [];
    })
      × (session request cookie_name timeout_s generated (without_id r) ≡ r)
unfolding session open_session id
session_same request cookie_name key timeout_s generated f r e = (ground arith, ground arith)
