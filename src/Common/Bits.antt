-- ===== src/Common/Bits.antt =====
-- Facts about `&` and `^` at variables, from the digit recursion that the native operations stand
-- for, and about masks of one byte.
use Prim.Native.Nat.{
  ℕ, zero, suc, ◌+◌, ◌*◌, ◌/◌, ◌%◌, ◌^◌, ◌≤◌, ◌<◌, min, bit_and, bit_xor, bit_or, digits,
  bit_and-bitwise, bit_xor-bitwise, differ,
}
use mathlib.Core.Path.{◌≡◌, refl, sym, ap, ◌∙◌}
use native.Mathlib.Omega.{arith}
use native.Mathlib.Nat.{pow-succ', div-div-eq-div-mul}
use mathlib.Core.Bool.{Bool, true, ◌&&◌}
use rouille.Common.Tests.{◌==◌, ==_iff}

-- With at least as much fuel as the first number, the fuel does not matter.
module _ (rest : ℕ → ℕ) (on : ℕ → ℕ → ℕ) where
  digits_below :
      (n fuel a b : ℕ) → a ≤ n → a ≤ fuel → digits rest on fuel a b ≡ digits rest on a a b
  digits_below n zero zero b p q = refl
  digits_below n (suc fuel) zero b p q = refl
  digits_below n zero (suc a) b p q = absurd (omega arith)
  digits_below zero (suc fuel) (suc a) b p q = absurd (omega arith)
  digits_below (suc n) (suc fuel) (suc a) b p q =
      ap (λ (t : ℕ). t * 2 + on (suc a % 2) (b % 2))
        (digits_below n fuel (suc a / 2) (b / 2) (omega arith) (omega arith)
          ∙ sym (digits_below n a (suc a / 2) (b / 2) (omega arith) (omega arith)))

  -- The lowest digit of both numbers.
  lowest_digit :
      (a b : ℕ)
      → digits rest on (suc a) (suc a) b
        ≡ digits rest on (suc a / 2) (suc a / 2) (b / 2) * 2 + on (suc a % 2) (b % 2)
  lowest_digit a b =
      ap (λ (t : ℕ). t * 2 + on (suc a % 2) (b % 2))
        (digits_below a a (suc a / 2) (b / 2) (omega arith) (omega arith))

and_lowest : (a b : ℕ) → bit_and a b ≡ bit_and (a / 2) (b / 2) * 2 + min (a % 2) (b % 2)
and_lowest zero b = omega (arith, bit_and-bitwise 0 b, bit_and-bitwise 0 (b / 2))
and_lowest (suc a) b = omega (
  arith,
  bit_and-bitwise (suc a) b,
  bit_and-bitwise (suc a / 2) (b / 2),
  lowest_digit (λ _. 0) min a b,
)

xor_lowest : (a b : ℕ) → bit_xor a b ≡ bit_xor (a / 2) (b / 2) * 2 + differ (a % 2) (b % 2)
xor_lowest zero b = omega (arith, bit_xor-bitwise 0 b, bit_xor-bitwise 0 (b / 2))
xor_lowest (suc a) b = simp bit_xor-bitwise (lowest_digit (λ y. y) differ a b)

and_zero_below : (n a : ℕ) → a ≤ n → bit_and a 0 ≡ 0
and_zero_below n zero h = refl
and_zero_below zero (suc a) h = absurd (omega arith)
and_zero_below (suc n) (suc a) h =
    omega (arith, and_lowest (suc a) 0, and_zero_below n (suc a / 2) (omega arith))

pub bit_and-zero : (a : ℕ) → bit_and a 0 ≡ 0
bit_and-zero a = and_zero_below a a (omega arith)

-- One bit.
pub bit_and-pow : (k a : ℕ) → bit_and a (2 ^ k) ≡ a / 2 ^ k % 2 * 2 ^ k
bit_and-pow zero a = omega (arith, and_lowest a 1, bit_and-zero (a / 2))
bit_and-pow (suc k) a =
    let halves : a / 2 ^ suc k ≡ a / 2 / 2 ^ k =
      rw pow-succ' (sym (div-div-eq-div-mul a 2 (2 ^ k))) in
    let power : 2 ^ suc k / 2 ≡ 2 ^ k = omega (arith, pow-succ' 2 k) in
    let even : 2 ^ suc k % 2 ≡ 0 = omega (arith, pow-succ' 2 k) in
    let bit = a / 2 / 2 ^ k % 2 in
    let twice : bit * 2 ^ suc k ≡ bit * 2 ^ k * 2 = rw pow-succ' (omega arith) in
    and_lowest a (2 ^ suc k)
    ∙ rw (power, even, bit_and-pow k (a / 2), halves) (omega (arith, twice))

-- A check of every byte by evaluation.
abbrev all_below : ℕ → (ℕ → Bool) → Bool
all_below zero p = true
all_below (suc n) p = p n && all_below n p

every_byte : (p : ℕ → Bool) (n x : ℕ) → all_below n p ≡ true → x < n → p x ≡ true
every_byte p zero x h lt = absurd (omega arith)
every_byte p (suc n) x h lt = ground (arith, every_byte p n x)

pub bit_and_127 : (x : ℕ) → x < 256 → bit_and x 0x7f ≡ x % 128
bit_and_127 x h = (==_iff _ _).0 (every_byte (λ x. bit_and x 0x7f == x % 128) 256 x refl h)

pub bit_and_15 : (x : ℕ) → x < 256 → bit_and x 0xf ≡ x % 16
bit_and_15 x h = (==_iff _ _).0 (every_byte (λ x. bit_and x 0xf == x % 16) 256 x refl h)

pub bit_and_112 : (x : ℕ) → x < 256 → bit_and x 0x70 ≡ x / 16 % 8 * 16
bit_and_112 x h = (==_iff _ _).0 (every_byte (λ x. bit_and x 0x70 == x / 16 % 8 * 16) 256 x refl h)

pub bit_and_128 : (x : ℕ) → x < 256 → bit_and x 0x80 ≡ x / 128 * 128
bit_and_128 x h = (==_iff _ _).0 (every_byte (λ x. bit_and x 0x80 == x / 128 * 128) 256 x refl h)

pub bit_or_128 : (x : ℕ) → x < 16 → bit_or 0x80 x ≡ 128 + x
bit_or_128 x h = (==_iff _ _).0 (every_byte (λ x. bit_or 0x80 x == 128 + x) 16 x refl h)

-- The lowest byte of any number.
and_15 : (a : ℕ) → bit_and a 15 ≡ a % 16
and_15 a = omega (
  arith,
  and_lowest a 15,
  and_lowest (a / 2) 7,
  and_lowest (a / 2 / 2) 3,
  and_lowest (a / 2 / 2 / 2) 1,
  bit_and-zero (a / 2 / 2 / 2 / 2),
)

pub bit_and_255 : (a : ℕ) → bit_and a 0xff ≡ a % 256
bit_and_255 a = omega (
  arith,
  and_lowest a 255,
  and_lowest (a / 2) 127,
  and_lowest (a / 2 / 2) 63,
  and_lowest (a / 2 / 2 / 2) 31,
  and_15 (a / 2 / 2 / 2 / 2),
)

-- `^` with the same number twice.
differ_twice : (x y : ℕ) → x < 2 → y < 2 → (differ x y < 2) × (differ (differ x y) y ≡ x)
differ_twice zero zero p q = omega arith
differ_twice zero (suc zero) p q = omega arith
differ_twice (suc zero) zero p q = omega arith
differ_twice (suc zero) (suc zero) p q = omega arith
differ_twice (suc (suc x)) y p q = absurd (omega arith)
differ_twice zero (suc (suc y)) p q = absurd (omega arith)
differ_twice (suc zero) (suc (suc y)) p q = absurd (omega arith)

xor_self_step :
    (a b : ℕ) → bit_xor (bit_xor (a / 2) (b / 2)) (b / 2) ≡ a / 2 → bit_xor (bit_xor a b) b ≡ a
xor_self_step a b ih =
    let (small, back) = differ_twice (a % 2) (b % 2) (omega arith) (omega arith) in
    let half : bit_xor a b / 2 ≡ bit_xor (a / 2) (b / 2) = omega (arith, xor_lowest a b) in
    let last : bit_xor a b % 2 ≡ differ (a % 2) (b % 2) = omega (arith, xor_lowest a b) in
    xor_lowest (bit_xor a b) b ∙ rw (half, last, ih, back) (omega arith)

xor_self_below : (n a b : ℕ) → a ≤ n → b ≤ n → bit_xor (bit_xor a b) b ≡ a
xor_self_below zero zero zero p q = refl
xor_self_below zero zero (suc b) p q = absurd (omega arith)
xor_self_below zero (suc a) b p q = absurd (omega arith)
xor_self_below (suc n) a b p q =
    xor_self_step a b (xor_self_below n (a / 2) (b / 2) (omega arith) (omega arith))

pub bit_xor_twice : (a b : ℕ) → bit_xor (bit_xor a b) b ≡ a
bit_xor_twice a b = xor_self_below (a + b) a b (omega arith) (omega arith)
