-- ===== src/Input/Tests.antt =====
-- Requests that the theorems on src/input/ are applied to.
use rouille.Common.{
  Bytes, ℕ, ◌≡◌, refl, ◌⊎◌, inl, true, false, Option, none, some, List, [], ◌∷◌, leb, Bool, ◌==◌,
  if◌then◌else◌, Text, text, map, lacks-Lacks, split, arith, strip_prefix, trim_start, trim,
  text_eq, eq_ignore_ascii_case, starts_with,
}
use rouille.Common.Utf8.{as_bytes, IsText}
use rouille.Http.Body.{cursor}
use rouille.Http.Request.{Request, Bodies, stored, taken, header}
use rouille.Input.Cookies.{collect}
use rouille.Input.Cookies.RoundTrip.{print_cookies, tidy, collect-print_cookies}
use rouille.Input.Plain.{err, limit_exceeded, plain_text_body_with_limit}
use rouille.Input.Plain.Limit.{plain_text_body_exceeded}
use rouille.Input.Priority.{Floats, accepts, parse_priority_header, priority_header_preferred}
use rouille.Input.Priority.Compare.{IsOrder}
use rouille.Input.Priority.Best.{IsDecided, priority_header_preferred-IsDecided}

-- One character for a number, of which `1` is the default and 0 the least; `N` is NaN, the `none`.
abbrev digit : Text → Option (Option ℕ)
digit (c ∷ []) = some (if c == b'N' then none else some c)
digit _ = none

abbrev le : Option ℕ → Option ℕ → Bool
le (some a) (some b) = leb a b
le _ _ = false

abbrev pub digits : Floats
digits = record {
  F32 = Option ℕ;
  from_str = digit;
  one = some b'1';
  neg_infinity = some 0;
  le = le;
}

le_trans : (a b c : Option ℕ) → le a b ≡ true → le b c ≡ true → le a c ≡ true
le_trans (some a) (some b) (some c) h g = ground arith
le_trans none b c h g = absurd (ground arith)
le_trans (some a) none c h g = absurd (ground arith)
le_trans (some a) (some b) none h g = absurd (ground arith)

le_total : (a b : Option ℕ) → le a a ≡ true → le b b ≡ true → (le a b ≡ true) ⊎ (le b a ≡ true)
le_total (some a) (some b) m n = ground arith
le_total none b m n = absurd (ground arith)
le_total (some a) none m n = absurd (ground arith)

digits-IsOrder : IsOrder digits
digits-IsOrder = record { trans = le_trans; total = le_total; neg_infinity_is_number = refl }

priority_header_preferred-IsDecided_example :
    IsDecided digits
      (text "image/png" ∷ text "text/plain" ∷ [])
      (parse_priority_header digits (text "text/*; q=3, image/png; q=2"))
      (priority_header_preferred digits
        (text "text/*; q=3, image/png; q=2")
        (text "image/png" ∷ text "text/plain" ∷ []))
unfolding text parse_priority_header split strip_prefix trim_start trim
priority_header_preferred-IsDecided_example =
    priority_header_preferred-IsDecided digits digits-IsOrder (text "text/*; q=3, image/png; q=2")
      (text "image/png" ∷ text "text/plain" ∷ []) (refl, (refl, tt))

-- Behind a NaN each later entry is taken, so that a lower priority wins.
nan_is_passed :
    priority_header_preferred digits
      (text "a/x;q=9, b/x;q=N, c/x;q=1")
      (text "a/x" ∷ text "b/x" ∷ text "c/x" ∷ [])
    ≡ some 2
unfolding text priority_header_preferred parse_priority_header split strip_prefix trim_start trim
    accepts text_eq
nan_is_passed = refl

abbrev cookie_list : List (Text × Text)
cookie_list = (text " hello", text "\"world\"") ∷ []

collect-print_cookies_example :
    collect (split b';' (print_cookies (text "a", text "b") cookie_list))
    ≡ map tidy ((text "a", text "b") ∷ cookie_list)
unfolding text
collect-print_cookies_example =
    collect-print_cookies (text "a", text "b") cookie_list
      (
        lacks-Lacks b'=' (text "a") refl,
        lacks-Lacks b';' (text "a") refl,
        lacks-Lacks b';' (text "b") refl,
      )
      (
        (
          lacks-Lacks b'=' (text " hello") refl,
          lacks-Lacks b';' (text " hello") refl,
          lacks-Lacks b';' (text "\"world\"") refl,
        ),
        tt,
      )

abbrev request : Request
request = record {
  method = text "POST";
  url = text "/";
  headers = (text "content-type", text "text/plain") ∷ [];
  https = false;
  shared_data = 3;
  remote_addr = none;
}

abbrev bodies : Bodies
bodies = stored 3 (cursor (as_bytes (text "hi"))) (λ i. none)

hi-IsText : IsText (text "hi")
unfolding text
hi-IsText = (inl (omega arith), (inl (omega arith), tt))

plain_text_body_exceeded_example :
    plain_text_body_with_limit request 1 bodies ≡ (err limit_exceeded, taken 3 bodies)
unfolding text header eq_ignore_ascii_case starts_with as_bytes
plain_text_body_exceeded_example =
    plain_text_body_exceeded request 1 bodies (text "text/plain") (cursor (as_bytes (text "hi")))
      refl refl refl (omega arith) (omega arith)

-- A stand-in for base64 that changes no byte.
abbrev plain_base64 : Text → Option Bytes
plain_base64 t = some t

abbrev login_request : Request
login_request = record request { headers = (text "authorization", text "Basic me:a:b") ∷ [] }

me-IsText : IsText (text "me")
unfolding text
me-IsText = (inl (omega arith), (inl (omega arith), tt))

ab-IsText : IsText (text "a:b")
unfolding text
ab-IsText = (inl (omega arith), (inl (omega arith), (inl (omega arith), tt)))
