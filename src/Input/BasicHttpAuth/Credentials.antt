-- ===== src/Input/BasicHttpAuth/Credentials.antt =====
-- The credentials that a client sends.
use rouille.Common.{
  ◌≡◌, refl, Option, some, ◌∷◌, ◌++◌, Bytes, Text, text, text_eq_self, split_once_at, Lacks,
  lacks-Lacks, arith,
}
use rouille.Common.Utf8.{as_bytes, IsText, from_utf8-as_bytes}
use rouille.Http.Request.{Request, header}
use rouille.Input.BasicHttpAuth.{basic_http_auth}

basic-Lacks : Lacks b' ' (text "Basic")
unfolding text
basic-Lacks = lacks-Lacks b' ' (text "Basic") refl

-- A header `Basic` with the base64 form of a login without `:` (in bytes), a `:` and a password:
-- both are given back, whatever the password contains.
pub basic_http_auth_lem :
    (base64_decode : Text → Option Bytes) (r : Request) (encoded login password : Text)
    → header r (text "Authorization") ≡ some (text "Basic" ++ b' ' ∷ encoded)
    → base64_decode encoded ≡ some (as_bytes login ++ b':' ∷ as_bytes password)
    → Lacks b':' (as_bytes login)
    → IsText login
    → IsText password
    → basic_http_auth base64_decode r ≡ some (record { login = login; password = password })
unfolding basic_http_auth
basic_http_auth_lem base64_decode r encoded login password h d l t u = ground (
  arith,
  split_once_at b' ' (text "Basic") encoded basic-Lacks,
  text_eq_self (text "Basic"),
  split_once_at b':' (as_bytes login) (as_bytes password) l,
  from_utf8-as_bytes login t,
  from_utf8-as_bytes password u,
)
