-- ===== src/Websocket/LowLevel/Decoder/Prefix.antt =====
-- A header is decided by its first bytes, and at its last one.
use rouille.Common.{
  ◌^◌, ltb, Bool-cases, inl, inr, length-drop, ℕ, zero, suc, ◌+◌, ◌≤◌, ◌<◌, ◌≡◌, ◌≢◌, refl, ap,
  List, [], ◌∷◌, ◌++◌, Bytes, Bool, false, length, length-append, take, drop, arith,
}
use rouille.Websocket.LowLevel.Decoder.{incomplete, complete, header_of, header_size, extended}

module _ {ℓ} {A : Type ℓ} where
  take-append_le : (n : ℕ) (xs ys : List A) → n ≤ length xs → take n (xs ++ ys) ≡ take n xs
  take-append_le zero xs ys h = refl
  take-append_le (suc n) [] ys h = absurd (omega arith)
  take-append_le (suc n) (x ∷ xs) ys h = ap (◌∷◌ x) (take-append_le n xs ys (omega arith))

  drop-append_le : (n : ℕ) (xs ys : List A) → n ≤ length xs → drop n (xs ++ ys) ≡ drop n xs ++ ys
  drop-append_le zero xs ys h = refl
  drop-append_le (suc n) [] ys h = absurd (omega arith)
  drop-append_le (suc n) (x ∷ xs) ys h = drop-append_le n xs ys (omega arith)

extended-append :
    (k limit a : ℕ) (t u : Bytes)
    → extended k limit a t ≢ incomplete
    → extended k limit a (t ++ u) ≡ extended k limit a t
unfolding extended
extended-append k limit a t u h = elim (Bool-cases (ltb (length t) (k + 4))) [
  | inl short ↦ absurd (h (rw short))
  | inr long ↦
      let room : k + 4 ≤ length t = ground arith in
      let long' : ltb (length (t ++ u)) (k + 4) ≡ false = ground (arith, length-append t u) in
      rw (
        long,
        long',
        take-append_le k t u (omega arith),
        drop-append_le k t u (omega arith),
        take-append_le 4 (drop k t) u (omega (arith, length-drop k t)),
      )
]

-- Bytes behind a decided header do not change it.
pub header_of-append : (h t : Bytes) → header_of h ≢ incomplete → header_of (h ++ t) ≡ header_of h
unfolding header_of
header_of-append [] t d = absurd (d refl)
header_of-append (a ∷ []) t d = absurd (d refl)
header_of-append (a ∷ b ∷ h) t d = ground (
  arith,
  length-append h t,
  extended-append 2 (2 ^ 16) a h t,
  extended-append 8 (2 ^ 63) a h t,
  take-append_le 4 h t,
)

-- A header is undecided below its size, and complete from there on.
pub header_size-incomplete : (h : Bytes) → header_of h ≡ incomplete → length h < header_size h
unfolding header_of extended
header_size-incomplete [] e = omega arith
header_size-incomplete (a ∷ []) e = omega arith
header_size-incomplete (a ∷ b ∷ h) e = ground arith

header_size-complete :
    (h : Bytes) (fin : Bool) (len opcode mask : ℕ)
    → header_of h ≡ complete fin len opcode mask
    → header_size h ≤ length h
unfolding header_of extended
header_size-complete [] fin len opcode mask e = cc
header_size-complete (a ∷ []) fin len opcode mask e = cc
header_size-complete (a ∷ b ∷ h) fin len opcode mask e = ground arith

pub header_size-append : (h t : Bytes) → 2 ≤ length h → header_size (h ++ t) ≡ header_size h
header_size-append [] t p = absurd (omega arith)
header_size-append (a ∷ []) t p = absurd (omega arith)
header_size-append (a ∷ b ∷ h) t p = refl

-- The byte that completes a header is the last one of its size.
pub header_size_last :
    (h : Bytes) (x : ℕ) (fin : Bool) (len opcode mask : ℕ)
    → header_of h ≡ incomplete
    → header_of (h ++ x ∷ []) ≡ complete fin len opcode mask
    → header_size (h ++ x ∷ []) ≡ suc (length h)
header_size_last h x fin len opcode mask e c =
    let under = header_size-incomplete h e in
    let over = header_size-complete (h ++ x ∷ []) fin len opcode mask c in
    let grown = length-append h (x ∷ []) in go h (omega arith) under
  where
    go :
        (h : Bytes)
        → header_size (h ++ x ∷ []) ≤ suc (length h)
        → length h < header_size h
        → header_size (h ++ x ∷ []) ≡ suc (length h)
    go [] p q = absurd (omega arith)
    go (a ∷ []) p q = ground arith
    go (a ∷ b ∷ h) p q = omega arith

-- An undecided header is shorter than the size that more bytes give it.
pub size_above : (h t : Bytes) → length h < header_size h → length h < header_size (h ++ t)
size_above [] [] p = omega arith
size_above [] (b ∷ []) p = omega arith
size_above [] (b ∷ c ∷ t) p = ground arith
size_above (a ∷ []) [] p = omega arith
size_above (a ∷ []) (b ∷ t) p = ground arith
size_above (a ∷ b ∷ h) t p = p
