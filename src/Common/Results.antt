-- ===== src/Common/Results.antt =====
-- `Result`, with `and_then`, which is also the operator `?`.
use mathlib.Core.Path.{◌≡◌, refl}
use mathlib.Core.Option.{Option, none, some}
use rouille.Common.Tests.{◌>>=◌}

pub data Result {ℓ κ} (A : Type ℓ) (E : Type κ) : Type (ℓ ⊔ κ) where
  ok : A → Result A E
  err : E → Result A E

module _ {ℓ κ μ} {A : Type ℓ} {B : Type κ} {E : Type μ} where
  abbrev pub and_then : Result A E → (A → Result B E) → Result B E
  and_then (ok a) k = k a
  and_then (err e) k = err e

  -- `Result::map`
  abbrev pub map_ok : (A → B) → Result A E → Result B E
  map_ok f (ok a) = ok (f a)
  map_ok f (err e) = err e

  -- A chain that succeeds has succeeded at its first step.
  pub and_then-ok :
      (r : Result A E) (k : A → Result B E) (b : B)
      → and_then r k ≡ ok b
      → (a : A) × (r ≡ ok a) × (k a ≡ ok b)
  and_then-ok (ok a) k b e = (a, refl, e)
  and_then-ok (err x) k b e = cc

-- `Result::map_err`
abbrev pub map_err {ℓ κ μ} :
    {A : Type ℓ} {E : Type κ} {F : Type μ} → (E → F) → Result A E → Result A F
map_err f (ok a) = ok a
map_err f (err e) = err (f e)

-- `Option::ok_or`
abbrev pub ok_or {ℓ κ} : {A : Type ℓ} {E : Type κ} → E → Option A → Result A E
ok_or e none = err e
ok_or e (some a) = ok a

-- `Result::ok`
abbrev pub to_option {ℓ κ} : {A : Type ℓ} {E : Type κ} → Result A E → Option A
to_option (ok a) = some a
to_option (err e) = none

module _ {ℓ κ μ} {A : Type ℓ} {B : Type κ} {E : Type μ} where
  pub to_option-and_then :
      (r : Result A E) (k : A → Result B E)
      → to_option (and_then r k) ≡ (to_option r >>= λ a. to_option (k a))
  to_option-and_then (ok a) k = refl
  to_option-and_then (err e) k = refl

  pub to_option-map_ok :
      (f : A → B) (r : Result A E) → to_option (map_ok f r) ≡ (to_option r >>= λ a. some (f a))
  to_option-map_ok f (ok a) = refl
  to_option-map_ok f (err e) = refl

pub to_option-map_err {ℓ κ μ} :
    {A : Type ℓ} {E : Type κ} {F : Type μ} (f : E → F) (r : Result A E)
    → to_option (map_err f r) ≡ to_option r
to_option-map_err f (ok a) = refl
to_option-map_err f (err e) = refl

-- Two results together, if both are there.
abbrev pub both {ℓ} : {A B : Type ℓ} → Option A → Option B → Option (A × B)
both none b = none
both (some a) none = none
both (some a) (some b) = some (a, b)

pub both-none {ℓ} : {A B : Type ℓ} (a : Option A) → both {B = B} a none ≡ none
both-none none = refl
both-none (some a) = refl

pub bind-none {ℓ κ} : {A : Type ℓ} {B : Type κ} (a : Option A) → ◌>>=◌ {B = B} a (λ x. none) ≡ none
bind-none none = refl
bind-none (some a) = refl
