-- ===== src/Common/Utf8.antt =====
-- UTF-8, as `String::from_utf8` and `str::as_bytes` read and write it.
use rouille.Common.Tests.{ltb, ◌==◌, if◌then◌else◌}
use rouille.Common.Texts.{Text, Bytes, within}
use Prim.Native.Nat.{ℕ, zero, suc, ◌+◌, ◌-◌, ◌*◌, ◌/◌, ◌%◌, ◌<◌, ◌≤◌}
use mathlib.Core.Path.{◌≡◌, refl, sym, ◌∙◌, ap}
use mathlib.Core.Logic.{◌⊎◌}
use mathlib.Core.Option.{Option, none, some}
use mathlib.Core.List.{[], ◌∷◌, ◌++◌, append_assoc}
use native.Mathlib.Omega.{arith}

-- Between two characters, or inside one: continuation bytes left, the range of the next one, and
-- the bits read so far.
pub data Pending : Type 0 where
  between : Pending
  inside : ℕ → ℕ → ℕ → ℕ → Pending

-- The state after a byte, and the character that it completes.
lead_byte : ℕ → Option (Pending × Option ℕ)
lead_byte b =
    if ltb b 0x80
    then some (between, some b)
    else if within 0xc2 0xdf b
    then some (inside 0 0x80 0xbf (b - 0xc0), none)
    else if within 0xe0 0xef b
    then some (
      inside 1 (if b == 0xe0 then 0xa0 else 0x80) (if b == 0xed then 0x9f else 0xbf) (b - 0xe0),
      none,
    )
    else if within 0xf0 0xf4 b
    then some (
      inside 2 (if b == 0xf0 then 0x90 else 0x80) (if b == 0xf4 then 0x8f else 0xbf) (b - 0xf0),
      none,
    )
    else none

next_byte : Pending → ℕ → Option (Pending × Option ℕ)
unfolding lead_byte
next_byte between b = lead_byte b
next_byte (inside zero lo hi bits) b =
    if within lo hi b then some (between, some (bits * 64 + (b - 0x80))) else none
next_byte (inside (suc n) lo hi bits) b =
    if within lo hi b then some (inside n 0x80 0xbf (bits * 64 + (b - 0x80)), none) else none

abbrev prepend : Option ℕ → Option Text → Option Text
prepend none t = t
prepend (some c) none = none
prepend (some c) (some t) = some (c ∷ t)

decode_from : Pending → Bytes → Option Text
unfolding next_byte
decode_from between [] = some []
decode_from (inside n lo hi bits) [] = none
decode_from p (b ∷ s) = elim (next_byte p b) [
  | none ↦ none
  | some (q, done) ↦ prepend done (decode_from q s)
]

unfoldable pub from_utf8 : Bytes → Option Text
unfolding decode_from
from_utf8 = decode_from between

utf8_char : ℕ → Bytes
utf8_char c =
    if ltb c 0x80
    then c ∷ []
    else if ltb c 0x800
    then (0xc0 + c / 64) ∷ (0x80 + c % 64) ∷ []
    else if ltb c 0x10000
    then (0xe0 + c / 4096) ∷ (0x80 + c / 64 % 64) ∷ (0x80 + c % 64) ∷ []
    else (0xf0 + c / 262144) ∷ (0x80 + c / 4096 % 64) ∷ (0x80 + c / 64 % 64) ∷ (0x80 + c % 64) ∷ []

unfoldable pub as_bytes : Text → Bytes
unfolding utf8_char
as_bytes [] = []
as_bytes (c ∷ t) = utf8_char c ++ as_bytes t

pub as_bytes-append : (s t : Text) → as_bytes (s ++ t) ≡ as_bytes s ++ as_bytes t
unfolding as_bytes
as_bytes-append [] t = refl
as_bytes-append (c ∷ s) t =
    ap (◌++◌ (utf8_char c)) (as_bytes-append s t)
    ∙ sym (append_assoc (utf8_char c) (as_bytes s) (as_bytes t))

-- A Unicode scalar value: a code point that is no surrogate.
abbrev pub IsScalar : ℕ → Type 0
IsScalar c = (c < 0xd800) ⊎ ((0xe000 ≤ c) × (c < 0x110000))

abbrev pub IsText : Text → Type 0
IsText [] = Unit
IsText (c ∷ t) = IsScalar c × IsText t

decode_from-utf8_char :
    (c : ℕ) (s : Bytes)
    → IsScalar c
    → decode_from between (utf8_char c ++ s) ≡ prepend (some c) (decode_from between s)
unfolding decode_from next_byte lead_byte utf8_char
decode_from-utf8_char c s h = ground arith

pub from_utf8-as_bytes : (t : Text) → IsText t → from_utf8 (as_bytes t) ≡ some t
unfolding from_utf8 as_bytes
from_utf8-as_bytes [] h = refl
from_utf8-as_bytes (c ∷ t) (h, hs) =
    decode_from-utf8_char c (as_bytes t) h ∙ ap (prepend (some c)) (from_utf8-as_bytes t hs)
