-- ===== src/Session/RoundTrip/Alphanumeric.antt =====
-- The identifiers of `generate_session_id` in src/session.rs, which no cookie has to escape.
use mathlib.Core.Path.{subst}
use mathlib.Core.List.{reverse, reverse_aux, reverse-reverse}
use rouille.Common.{
  ℕ, length-take_le, ltb, length, some, Bool, ◌≡◌, refl, ap, ◌∙◌, true, false, ◌==◌, Bool-cases,
  inl, inr, List, [], ◌∷◌, Text, take, retain, trim, trim_matches, trim_start_matches,
  is_whitespace, Lacks, arith, zero, suc,
}
use rouille.Input.Cookies.RoundTrip.{tidy}
use rouille.Session.{is_ascii_letter_or_digit, generate_session_id}

-- A text of letters and digits.
abbrev pub IsAlphanumeric : Text → Type 0
IsAlphanumeric [] = Unit
IsAlphanumeric (c ∷ s) = (is_ascii_letter_or_digit c ≡ true) × IsAlphanumeric s

take-IsAlphanumeric : (n : ℕ) (s : Text) → IsAlphanumeric s → IsAlphanumeric (take n s)
take-IsAlphanumeric zero s h = tt
take-IsAlphanumeric (suc n) [] h = tt
take-IsAlphanumeric (suc n) (c ∷ s) (h, hs) = (h, take-IsAlphanumeric n s hs)

retain-IsAlphanumeric : (s : Text) → IsAlphanumeric (retain is_ascii_letter_or_digit s)
retain-IsAlphanumeric [] = tt
retain-IsAlphanumeric (c ∷ s) = elim (Bool-cases (is_ascii_letter_or_digit c)) [
  | inl kept ↦ rw kept (kept, retain-IsAlphanumeric s)
  | inr dropped ↦ rw dropped (retain-IsAlphanumeric s)
]

pub generate_session_id-IsAlphanumeric :
    (samples : List ℕ) (key : Text)
    → generate_session_id samples ≡ some key
    → IsAlphanumeric key × (length key ≡ 64)
unfolding generate_session_id
generate_session_id-IsAlphanumeric samples key e =
    elim (Bool-cases (ltb (length (retain is_ascii_letter_or_digit samples)) 64)) [
      | inl few ↦ absurd (ground arith)
      | inr enough ↦
          let kept = retain is_ascii_letter_or_digit samples in
          let is_key : take 64 kept ≡ key = ground arith in
          (
            subst IsAlphanumeric is_key
                (take-IsAlphanumeric 64 kept (retain-IsAlphanumeric samples)),
            subst (λ (t : Text). length t ≡ 64) is_key
                (length-take_le 64 kept (ground (arith, enough))),
          )
    ]

pub alphanumeric-Lacks :
    (sep : ℕ) (s : Text) → is_ascii_letter_or_digit sep ≡ false → IsAlphanumeric s → Lacks sep s
alphanumeric-Lacks sep [] e h = tt
alphanumeric-Lacks sep (c ∷ s) e (h, hs) =
    (λ same. ground (arith, same), alphanumeric-Lacks sep s e hs)

reverse_aux-IsAlphanumeric :
    (s t : Text) → IsAlphanumeric s → IsAlphanumeric t → IsAlphanumeric (reverse_aux s t)
reverse_aux-IsAlphanumeric [] t h g = g
reverse_aux-IsAlphanumeric (c ∷ s) t (h, hs) g = reverse_aux-IsAlphanumeric s (c ∷ t) hs (h, g)

not_trimmed :
    (p : ℕ → Bool) (s : Text)
    → ((c : ℕ) → is_ascii_letter_or_digit c ≡ true → p c ≡ false)
    → IsAlphanumeric s
    → trim_start_matches p s ≡ s
unfolding trim_start_matches
not_trimmed p [] fails h = refl
not_trimmed p (c ∷ s) fails (h, hs) = rw (fails c h) refl

trim_matches-IsAlphanumeric :
    (p : ℕ → Bool) (s : Text)
    → ((c : ℕ) → is_ascii_letter_or_digit c ≡ true → p c ≡ false)
    → IsAlphanumeric s
    → trim_matches p s ≡ s
unfolding trim_matches
trim_matches-IsAlphanumeric p s fails h =
    ap (λ u. reverse (trim_start_matches p (reverse u))) (not_trimmed p s fails h)
    ∙ ap reverse (not_trimmed p (reverse s) fails (reverse_aux-IsAlphanumeric s [] h tt))
    ∙ reverse-reverse s

alphanumeric_not_space : (c : ℕ) → is_ascii_letter_or_digit c ≡ true → is_whitespace c ≡ false
unfolding is_whitespace
alphanumeric_not_space c e = ground (arith, e)

pub tidy-IsAlphanumeric : (name s : Text) → IsAlphanumeric s → tidy (name, s) ≡ (trim name, s)
unfolding trim
tidy-IsAlphanumeric name s h =
    ap (λ v. (trim name, v))
      (ap (trim_matches (λ c. c == b'"'))
          (trim_matches-IsAlphanumeric is_whitespace s (alphanumeric_not_space) h)
        ∙ trim_matches-IsAlphanumeric (λ c. c == b'"') s (λ c e. ground arith) h)
