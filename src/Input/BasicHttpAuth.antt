-- ===== src/Input/BasicHttpAuth.antt =====
-- Basic HTTP authentication, src/input/basic_http_auth.rs.
pub mod Credentials
use rouille.Common.{
  Bytes, Option, none, some, ◌>>=◌, Text, text, text_eq, split_once, if◌then◌else◌,
}
use rouille.Common.Utf8.{from_utf8}
use rouille.Http.Request.{Request, header}

pub record HttpAuthCredentials : Type 0 where
  pub login : Text
  pub password : Text

-- `BASE64_STANDARD.decode(…).ok()`
module _ (base64_decode : Text → Option Bytes) where
  abbrev credentials : Bytes → Option HttpAuthCredentials
  credentials authvalue =
      let split : Bytes × Option Bytes = split_once b':' authvalue in
      from_utf8 split.0 >>= (λ login. split.1 >>= (λ p.
        from_utf8 p >>= (λ password. some (record { login = login; password = password }))))

  abbrev authorized : Text → Option HttpAuthCredentials
  authorized header =
      let split : Text × Option Text = split_once b' ' header in
      if text_eq split.0 (text "Basic") then split.1 >>= base64_decode >>= credentials else none

  unfoldable pub basic_http_auth : Request → Option HttpAuthCredentials
  basic_http_auth request = header request (text "Authorization") >>= authorized
