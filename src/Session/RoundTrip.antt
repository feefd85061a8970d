-- ===== src/Session/RoundTrip.antt =====
-- A client of `session` in src/session.rs that sends back the cookie that was set for it.
pub mod Alphanumeric
use rouille.Common.{
  length, ℕ, trim_matches, trim_start_matches, is_whitespace, Bool, Option, none, map, decimal,
  split_once_at, append_assoc, text_eq_self, ◌≡◌, refl, sym, ap, ◌∙◌, ◌≢◌, true, false, ◌||◌, ◌==◌,
  Bool-cases, inl, inr, if◌then◌else◌, some, List, [], ◌∷◌, ◌++◌, Text, text, text_eq, take, retain,
  within, find, split, split_once, trim, trim_matches, trim_start_matches, is_whitespace, Lacks,
  arith, zero, suc,
}
use rouille.Http.Request.{Request, header}
use rouille.Http.Response.{Response}
use rouille.Input.Cookies.{cookies, collect}
use rouille.Input.Cookies.RoundTrip.{
  print_cookies, tidy, IsCookie, AreCookies, collect-print_cookies,
}
use rouille.Session.{
  Session, session, open_session, cookie_header, is_ascii_letter_or_digit, generate_session_id, id,
}
use rouille.Session.SetCookie.{with_id}
use rouille.Session.RoundTrip.Alphanumeric.{
  IsAlphanumeric, generate_session_id-IsAlphanumeric, alphanumeric-Lacks, tidy-IsAlphanumeric,
}

-- What a client keeps of a `Set-Cookie` header: the text up to the first `;`, as a name up to the
-- first `=` and a value.
abbrev pub pair_of : Text × Option Text → Text × Text
pair_of (name, none) = (name, [])
pair_of (name, some value) = (name, value)

abbrev pub kept_cookie : Text → Text × Text
kept_cookie set_cookie = pair_of (split_once b'=' (split_once b';' set_cookie).0)

abbrev spaced : Text × Text → Text × Text
spaced (name, value) = (b' ' ∷ name, value)

-- The `Cookie` header of a client that has these, with `; ` between them.
abbrev pub print_all : List (Text × Text) → Text
print_all [] = []
print_all (c ∷ cs) = print_cookies c (map spaced cs)

-- None of these has the name.
abbrev pub AreOthers : Text → List (Text × Text) → Type 0
AreOthers name [] = Unit
AreOthers name (c ∷ cs) = (text_eq (tidy c).0 name ≡ false) × AreOthers name cs

Lacks-append : (sep : ℕ) (s t : Text) → Lacks sep s → Lacks sep t → Lacks sep (s ++ t)
Lacks-append sep [] t h g = g
Lacks-append sep (c ∷ s) t (ne, h) g = (ne, Lacks-append sep s t h g)

cookie_header_lem :
    (name key : Text) (timeout_s : ℕ)
    → cookie_header name key timeout_s
      ≡ (name ++ b'=' ∷ key)
        ++ b';' ∷ (text " Max-Age=" ++ (decimal timeout_s ++ text "; Path=/; HttpOnly"))
unfolding cookie_header text
cookie_header_lem name key timeout_s =
    ap (λ s. s ++ text "; Max-Age=" ++ decimal timeout_s ++ text "; Path=/; HttpOnly")
      (append_assoc name (text "=") key)
    ∙ append_assoc ((name ++ b'=' ∷ key) ++ text "; Max-Age=") (decimal timeout_s)
        (text "; Path=/; HttpOnly")
    ∙ append_assoc (name ++ b'=' ∷ key) (text "; Max-Age=")
        (decimal timeout_s ++ text "; Path=/; HttpOnly")

kept_cookie-cookie_header :
    (name key : Text) (timeout_s : ℕ)
    → Lacks b'=' name
    → Lacks b';' (name ++ b'=' ∷ key)
    → kept_cookie (cookie_header name key timeout_s) ≡ (name, key)
kept_cookie-cookie_header name key timeout_s e s =
    ap kept_cookie (cookie_header_lem name key timeout_s)
    ∙ ap (λ cut. pair_of (split_once b'=' cut.0))
        (split_once_at b';' (name ++ b'=' ∷ key)
          (text " Max-Age=" ++ (decimal timeout_s ++ text "; Path=/; HttpOnly")) s)
    ∙ ap pair_of (split_once_at b'=' name key e)

AreCookies-append :
    (before after : List (Text × Text)) (c : Text × Text)
    → AreCookies before
    → IsCookie c
    → AreCookies after
    → AreCookies (before ++ c ∷ after)
AreCookies-append [] after c hs h gs = (h, gs)
AreCookies-append (b ∷ before) after c (b_h, hs) h gs =
    (b_h, AreCookies-append before after c hs h gs)

AreCookies-spaced : (cs : List (Text × Text)) → AreCookies cs → AreCookies (map spaced cs)
AreCookies-spaced [] hs = tt
AreCookies-spaced ((name, value) ∷ cs) ((e, s, v), hs) =
    (((λ x. omega arith, e), (λ x. omega arith, s), v), AreCookies-spaced cs hs)

tidy-spaced : (cs : List (Text × Text)) → map tidy (map spaced cs) ≡ map tidy cs
unfolding trim trim_matches trim_start_matches is_whitespace
tidy-spaced [] = refl
tidy-spaced (c ∷ cs) = ap (◌∷◌ (tidy c)) (tidy-spaced cs)

collect-print_all :
    (before after : List (Text × Text)) (c : Text × Text)
    → AreCookies before
    → IsCookie c
    → AreCookies after
    → collect (split b';' (print_all (before ++ c ∷ after))) ≡ map tidy (before ++ c ∷ after)
collect-print_all [] after c hs h gs =
    collect-print_cookies c (map spaced after) h (AreCookies-spaced after gs)
    ∙ ap (◌∷◌ (tidy c)) (tidy-spaced after)
collect-print_all (b ∷ before) after c (b_h, hs) h gs =
    collect-print_cookies b (map spaced (before ++ c ∷ after)) b_h
      (AreCookies-spaced (before ++ c ∷ after) (AreCookies-append before after c hs h gs))
    ∙ ap (◌∷◌ (tidy b)) (tidy-spaced (before ++ c ∷ after))

find-tidy :
    (name : Text) (before after : List (Text × Text)) (c : Text × Text)
    → AreOthers name before
    → text_eq (tidy c).0 name ≡ true
    → find (λ kv. text_eq kv.0 name) (map tidy (before ++ c ∷ after)) ≡ some (tidy c)
find-tidy name [] after c h e = ground arith
find-tidy name (b ∷ before) after c (h, hs) e = ground (arith, find-tidy name before after c hs e)

cookies_lem :
    (request : Request) (sent : Text)
    → header request (text "Cookie") ≡ some sent
    → cookies request ≡ split b';' sent
unfolding cookies
cookies_lem request sent e = ground (arith, e)

find-cookies :
    (next : Request) (name key : Text) (before after : List (Text × Text))
    → AreCookies before
    → AreOthers name before
    → IsCookie (name, key)
    → AreCookies after
    → trim name ≡ name
    → tidy (name, key) ≡ (trim name, key)
    → header next (text "Cookie") ≡ some (print_all (before ++ (name, key) ∷ after))
    → find (λ kv. text_eq kv.0 name) (collect (cookies next)) ≡ some (trim name, key)
find-cookies next name key before after hs others h gs trimmed tidied sent =
    ap (λ list. find (λ kv. text_eq kv.0 name) (collect list))
      (cookies_lem next (print_all (before ++ (name, key) ∷ after)) sent)
    ∙ ap (find (λ kv. text_eq kv.0 name)) (collect-print_all before after (name, key) hs h gs)
    ∙ find-tidy name before after (name, key) others
        (ap (λ n. text_eq n name) trimmed ∙ text_eq_self name)
    ∙ ap some tidied

session_new :
    (request : Request) (name key : Text) (timeout_s : ℕ) (f : Text → Response)
    → find (λ kv. text_eq kv.0 name) (collect (cookies request)) ≡ none
    → session request name timeout_s key (with_id f) ≡ record (f key) {
      headers = (f key).headers ++ (text "Set-Cookie", cookie_header name key timeout_s) ∷ [];
    }
unfolding session open_session id
session_new request name key timeout_s f new = ground (arith, new)

open_session_given :
    (next : Request) (name key generated kept_name : Text)
    → find (λ kv. text_eq kv.0 name) (collect (cookies next)) ≡ some (kept_name, key)
    → open_session next name generated
      ≡ record { key_was_retrieved = false; key_was_given = true; key = key }
unfolding open_session
open_session_given next name key generated kept_name found = ground (arith, found)

-- A handler of a client without the cookie makes its response from a new identifier, which is of
-- 64 letters and digits, and the client is sent a cookie. If it sends back what it keeps of it,
-- among other cookies that are no cookies of the name where they stand in front, then the session
-- that is opened for the next request is one that was given, with the same identifier.
pub session_round_trip :
    (request next : Request) (name : Text) (timeout_s : ℕ) (samples : List ℕ) (key generated : Text)
    (f : Text → Response) (before after : List (Text × Text))
    → generate_session_id samples ≡ some key
    → find (λ kv. text_eq kv.0 name) (collect (cookies request)) ≡ none
    → trim name ≡ name
    → Lacks b'=' name
    → Lacks b';' name
    → AreCookies before
    → AreOthers name before
    → AreCookies after
    → header next (text "Cookie")
      ≡ some (print_all (before ++ kept_cookie (cookie_header name key timeout_s) ∷ after))
    → (session request name timeout_s key (with_id f) ≡ record (f key) {
      headers = (f key).headers ++ (text "Set-Cookie", cookie_header name key timeout_s) ∷ [];
    })
      × (IsAlphanumeric key × (length key ≡ 64))
      × (open_session next name generated
          ≡ record { key_was_retrieved = false; key_was_given = true; key = key })
session_round_trip request next name timeout_s samples key generated f before after made new trimmed
      e s hs others gs sent =
    let (is_key, long) = generate_session_id-IsAlphanumeric samples key made in
    let cookie_lacks =
      Lacks-append b';' name (b'=' ∷ key) s
        (λ x. omega arith, alphanumeric-Lacks b';' key refl is_key) in
    let kept = kept_cookie-cookie_header name key timeout_s e cookie_lacks in
    let is_cookie : IsCookie (name, key) = (e, s, alphanumeric-Lacks b';' key refl is_key) in
    let tidied = tidy-IsAlphanumeric name key is_key in
    (
      session_new request name key timeout_s f new,
      (is_key, long),
      open_session_given next name key generated (trim name) (
          find-cookies next name key before after hs others is_cookie gs trimmed tidied
            (sent ∙ ap (λ c. some (print_all (before ++ c ∷ after))) kept)),
    )
