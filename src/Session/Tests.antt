-- ===== src/Session/Tests.antt =====
-- A client that the theorem on src/session.rs is applied to.
use rouille.Common.{
  decimal, length, ℕ, ◌≡◌, refl, true, false, none, [], ◌∷◌, ◌++◌, lacks-Lacks, text,
  eq_ignore_ascii_case, split, split_once, trim, trim_matches, text_eq, Text, List,
}
use rouille.Http.Request.{Request, header}
use rouille.Http.Response.{empty_204}
use rouille.Input.Cookies.{cookies, collect}
use rouille.Session.{session, open_session, cookie_header, generate_session_id}
use rouille.Session.SetCookie.{with_id}
use rouille.Session.RoundTrip.{session_round_trip}
use rouille.Session.RoundTrip.Alphanumeric.{IsAlphanumeric}

abbrev with_headers : List (Text × Text) → Request
with_headers headers = record {
  method = text "GET";
  url = text "/";
  headers = headers;
  https = false;
  shared_data = 0;
  remote_addr = none;
}

abbrev samples : List ℕ
samples = b'-' ∷ text "abcdefghijklmnopqrstuvwxyzABCDEFGHIJKLMNOPQRSTUVWXYZ0123456789xy--z"

abbrev key : Text
key = text "abcdefghijklmnopqrstuvwxyzABCDEFGHIJKLMNOPQRSTUVWXYZ0123456789xy"

session_round_trip_example :
    (session (with_headers []) (text "SID") 3600 key (with_id (λ k. empty_204)) ≡ record empty_204 {
      headers =
          empty_204.headers
          ++ (text "Set-Cookie", text "SID=" ++ key ++ text "; Max-Age=3600; Path=/; HttpOnly")
            ∷ [];
    })
    × (IsAlphanumeric key × (length key ≡ 64))
    × (open_session
          (with_headers ((text "Cookie", text "a=b; SID=" ++ key) ∷ []))
          (text "SID")
          (text "other")
        ≡ record { key_was_retrieved = false; key_was_given = true; key = key })
unfolding text header eq_ignore_ascii_case cookies split_once collect trim trim_matches text_eq
    split generate_session_id cookie_header decimal
session_round_trip_example =
    session_round_trip (with_headers [])
      (with_headers ((text "Cookie", text "a=b; SID=" ++ key) ∷ [])) (text "SID") 3600 samples key
      (text "other") (λ k. empty_204) ((text "a", text "b") ∷ []) [] refl refl refl
      (lacks-Lacks b'=' (text "SID") refl) (lacks-Lacks b';' (text "SID") refl)
      (
        (
          lacks-Lacks b'=' (text "a") refl,
          lacks-Lacks b';' (text "a") refl,
          lacks-Lacks b';' (text "b") refl,
        ),
        tt,
      )
      (refl, tt) tt refl
