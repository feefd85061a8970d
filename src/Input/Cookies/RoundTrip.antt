-- ===== src/Input/Cookies/RoundTrip.antt =====
-- The cookies of a header that a client prints.
use rouille.Common.{
  ℕ, ◌≡◌, ◌==◌, List, [], ◌∷◌, ◌++◌, Text, Lacks, split, split_at, split-Lacks, split_once_at, trim,
  trim_matches, arith, map, append_assoc,
}
use rouille.Input.Cookies.{collect}

-- One `key=value` behind another, with `;` between.
abbrev pub print_cookies : Text × Text → List (Text × Text) → Text
print_cookies (k, v) [] = k ++ b'=' ∷ v
print_cookies (k, v) (next ∷ cookies) = k ++ b'=' ∷ v ++ b';' ∷ print_cookies next cookies

-- What is left of a name and a value.
abbrev pub tidy : Text × Text → Text × Text
tidy (k, v) = (trim k, trim_matches (λ c. c == b'"') (trim v))

abbrev pub IsCookie : Text × Text → Type 0
IsCookie (k, v) = Lacks b'=' k × Lacks b';' k × Lacks b';' v

abbrev pub AreCookies : List (Text × Text) → Type 0
AreCookies [] = Unit
AreCookies (c ∷ cs) = IsCookie c × AreCookies cs

Lacks-append : (sep : ℕ) (s t : Text) → Lacks sep s → Lacks sep t → Lacks sep (s ++ t)
Lacks-append sep [] t h g = g
Lacks-append sep (c ∷ s) t (ne, h) g = (ne, Lacks-append sep s t h g)

cookie-Lacks : (k v : Text) → IsCookie (k, v) → Lacks b';' (k ++ b'=' ∷ v)
cookie-Lacks k v (e, s, t) = Lacks-append b';' k (b'=' ∷ v) s (omega arith, t)

-- For names without `=` and `;` and values without `;`, a printed list of cookies gives each of
-- them, in its order, with the white space around name and value and then the quotes around the
-- value taken off.
pub collect-print_cookies :
    (c : Text × Text) (cs : List (Text × Text))
    → IsCookie c
    → AreCookies cs
    → collect (split b';' (print_cookies c cs)) ≡ map tidy (c ∷ cs)
unfolding collect
collect-print_cookies (k, v) [] (e, s, t) hs =
    ground (
      arith,
      split-Lacks b';' (k ++ b'=' ∷ v) (cookie-Lacks k v (e, s, t)),
      split_once_at b'=' k v e,
    )
collect-print_cookies (k, v) (next ∷ cs) (e, s, t) (h, hs) =
    let rest = collect-print_cookies next cs h hs in
    let first = k ++ b'=' ∷ v in
    let cut = split_at b';' first (print_cookies next cs) (cookie-Lacks k v (e, s, t)) in
    let regrouped = append_assoc k (b'=' ∷ v) (b';' ∷ print_cookies next cs) in
    ground (arith, split_once_at b'=' k v e)
