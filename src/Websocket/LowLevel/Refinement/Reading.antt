-- ===== src/Websocket/LowLevel/Refinement/Reading.antt =====
-- The header as `next` reads it, against the header as the byte decoder reads it.
use rouille.Common.{
  ℕ, zero, suc, ◌^◌, ◌≤◌, ◌<◌, ◌≡◌, not, some, [], ◌∷◌, ◌++◌, ltb, ◌==◌, if◌then◌else◌, ◌>>=◌,
  length, length-drop, take, drop, Bytes, bit_and, arith,
}
use rouille.Common.Bits.{bit_and-pow, bit_and_127}
use rouille.Websocket.LowLevel.{
  read_u16_be, read_u32_be, read_u64_be, HeaderRead, wait, refuse, header, length_and_mask,
  length_bit,
}
use rouille.Websocket.LowLevel.Decoder.{
  Header, incomplete, bad, complete, header_behind, extended, big_endian,
}

abbrev pub AllBytes : Bytes → Type 0
AllBytes [] = Unit
AllBytes (b ∷ bs) = (b < 256) × AllBytes bs

pub AllBytes-append : (xs ys : Bytes) → AllBytes xs → AllBytes ys → AllBytes (xs ++ ys)
AllBytes-append [] ys p q = q
AllBytes-append (x ∷ xs) ys (h, p) q = (h, AllBytes-append xs ys p q)

pub AllBytes-drop : (n : ℕ) (xs : Bytes) → AllBytes xs → AllBytes (drop n xs)
AllBytes-drop zero xs p = p
AllBytes-drop (suc n) [] p = p
AllBytes-drop (suc n) (x ∷ xs) (h, p) = AllBytes-drop n xs p

read_u16_be_lem :
    (t : Bytes) → 2 ≤ length t → read_u16_be t ≡ some (big_endian (take 2 t), drop 2 t)
unfolding read_u16_be
read_u16_be_lem [] h = absurd (omega arith)
read_u16_be_lem (a ∷ []) h = absurd (omega arith)
read_u16_be_lem (a ∷ b ∷ t) h = ground arith

read_u32_be_lem :
    (t : Bytes) → 4 ≤ length t → read_u32_be t ≡ some (big_endian (take 4 t), drop 4 t)
unfolding read_u32_be
read_u32_be_lem [] h = absurd (omega arith)
read_u32_be_lem (a ∷ []) h = absurd (omega arith)
read_u32_be_lem (a ∷ b ∷ []) h = absurd (omega arith)
read_u32_be_lem (a ∷ b ∷ c ∷ []) h = absurd (omega arith)
read_u32_be_lem (a ∷ b ∷ c ∷ d ∷ t) h = ground arith

read_u64_be_lem :
    (t : Bytes) → 8 ≤ length t → read_u64_be t ≡ some (big_endian (take 8 t), drop 8 t)
unfolding read_u64_be
read_u64_be_lem [] h = absurd (omega arith)
read_u64_be_lem (a ∷ []) h = absurd (omega arith)
read_u64_be_lem (a ∷ b ∷ []) h = absurd (omega arith)
read_u64_be_lem (a ∷ b ∷ c ∷ []) h = absurd (omega arith)
read_u64_be_lem (a ∷ b ∷ c ∷ d ∷ []) h = absurd (omega arith)
read_u64_be_lem (a ∷ b ∷ c ∷ d ∷ e ∷ []) h = absurd (omega arith)
read_u64_be_lem (a ∷ b ∷ c ∷ d ∷ e ∷ f ∷ []) h = absurd (omega arith)
read_u64_be_lem (a ∷ b ∷ c ∷ d ∷ e ∷ f ∷ g ∷ []) h = absurd (omega arith)
read_u64_be_lem (a ∷ b ∷ c ∷ d ∷ e ∷ f ∷ g ∷ i ∷ t) h = ground arith

big_endian_2 : (t : Bytes) → AllBytes t → big_endian (take 2 t) < 2 ^ 16
big_endian_2 [] p = omega arith
big_endian_2 (a ∷ []) p = omega arith
big_endian_2 (a ∷ b ∷ t) p = omega arith

big_endian_8 : (t : Bytes) → AllBytes t → 8 ≤ length t → big_endian (take 8 t) < 2 ^ 64
big_endian_8 [] p h = absurd (omega arith)
big_endian_8 (a ∷ []) p h = absurd (omega arith)
big_endian_8 (a ∷ b ∷ []) p h = absurd (omega arith)
big_endian_8 (a ∷ b ∷ c ∷ []) p h = absurd (omega arith)
big_endian_8 (a ∷ b ∷ c ∷ d ∷ []) p h = absurd (omega arith)
big_endian_8 (a ∷ b ∷ c ∷ d ∷ e ∷ []) p h = absurd (omega arith)
big_endian_8 (a ∷ b ∷ c ∷ d ∷ e ∷ f ∷ []) p h = absurd (omega arith)
big_endian_8 (a ∷ b ∷ c ∷ d ∷ e ∷ f ∷ g ∷ []) p h = absurd (omega arith)
big_endian_8 (a ∷ b ∷ c ∷ d ∷ e ∷ f ∷ g ∷ i ∷ t) p h = omega arith

length_bit_lem : (n : ℕ) → n < 2 ^ 64 → (bit_and n 0x8000000000000000 == 0) ≡ ltb n (2 ^ 63)
length_bit_lem n h = ground (arith, bit_and-pow 63 n)

abbrev pub read_of : Header → HeaderRead
read_of incomplete = wait
read_of (bad desc) = refuse desc
read_of (complete fin len opcode mask) = header len mask

-- The two branches in which a longer length follows.
behind_16 :
    (a : ℕ) (t : Bytes)
    → AllBytes t
    → (if ltb (suc (suc (length t))) 8
        then some wait
        else (do (len, it) ← read_u16_be t; (mask, _) ← read_u32_be it; some (header len mask)))
      ≡ some (read_of (extended 2 (2 ^ 16) a t))
unfolding extended
behind_16 a t p =
    ground (arith, read_u16_be_lem t, read_u32_be_lem (drop 2 t), length-drop 2 t, big_endian_2 t p)

behind_64 :
    (a : ℕ) (t : Bytes)
    → AllBytes t
    → (if ltb (suc (suc (length t))) 14 then some wait else (do
      (len, it) ← read_u64_be t
      if not (bit_and len 0x8000000000000000 == 0)
          then some (refuse length_bit)
          else (do (mask, _) ← read_u32_be it; some (header len mask))))
      ≡ some (read_of (extended 8 (2 ^ 63) a t))
unfolding extended
behind_64 a t p = ground (
  arith,
  read_u64_be_lem t,
  read_u32_be_lem (drop 8 t),
  length-drop 8 t,
  big_endian_8 t p,
  length_bit_lem (big_endian (take 8 t)),
)

pub length_and_mask_lem :
    (a b : ℕ) (t : Bytes)
    → AllBytes (b ∷ t)
    → 4 ≤ length t
    → length_and_mask (a ∷ b ∷ t) (length (a ∷ b ∷ t)) b ≡ some (read_of (header_behind a b t))
unfolding length_and_mask header_behind
length_and_mask_lem a b t p h =
    ground (arith, bit_and_127 b, behind_16 a t p.1, behind_64 a t p.1, read_u32_be_lem t h)
