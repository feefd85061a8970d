-- ===== src/Websocket/LowLevel/Unmask.antt =====
-- `Data::next` of src/websocket/low_level.rs: the bytes of a frame, unmasked.
use rouille.Common.{
  ℕ, zero, suc, ◌+◌, ◌-◌, ◌*◌, ◌/◌, ◌%◌, ◌^◌, ◌<◌, ◌≡◌, refl, ap, ◌∙◌, Option, none, some, [], ◌∷◌,
  ◌++◌, ltb, if◌then◌else◌, ◌>>=◌, length, get_elem?, Bytes, bit_and, bit_xor, arith,
}
use rouille.Common.Bits.{bit_and_255, bit_xor_twice}
use rouille.Websocket.LowLevel.{Data}

-- `((mask >> ((3 - offset) * 8)) & 0xff) as u8`; the subtraction panics below zero.
unfoldable mask_byte : ℕ → ℕ → Option ℕ
mask_byte mask offset =
    if ltb 3 offset then none else some (bit_and (mask / 2 ^ ((3 - offset) * 8)) 0xff)

next_byte : Bytes → Data → Option (Option (ℕ × Data))
next_byte [] d = some none
next_byte (byte ∷ rest) d = do
  mask ← mask_byte d.mask d.offset
  some (some (bit_xor byte mask, record d { source = rest; offset = (d.offset + 1) % 4 }))

-- `Data::next`
unfoldable next_decoded : Data → Option (Option (ℕ × Data))
unfolding next_byte mask_byte
next_decoded d = next_byte d.source d

collect_from : ℕ → Data → Option Bytes
collect_from zero d = some []
collect_from (suc n) d = elim (next_decoded d) [
  | none ↦ none
  | some none ↦ some []
  | some (some (b, d')) ↦ collect_from n d' >>= λ bs. some (b ∷ bs)
]

-- A loop over `Data`; there are as many rounds as bytes.
unfoldable pub collect : Data → Option Bytes
unfolding collect_from next_decoded
collect d = collect_from (length d.source) d

-- The octets of the mask, the most significant one first.
abbrev pub mask_octet : ℕ → ℕ → ℕ
mask_octet mask i = mask / 2 ^ ((3 - i) * 8) % 256

-- What the bytes decode to, with no iterator.
unfoldable pub unmask : ℕ → ℕ → Bytes → Bytes
unmask mask offset [] = []
unmask mask offset (b ∷ bs) = bit_xor b (mask_octet mask offset) ∷ unmask mask ((offset + 1) % 4) bs

mask_byte-mask_octet : (mask i : ℕ) → i < 4 → mask_byte mask i ≡ some (mask_octet mask i)
unfolding mask_byte
mask_byte-mask_octet mask i h = ground (arith, bit_and_255 (mask / 2 ^ ((3 - i) * 8)))

collect_from-unmask :
    (n : ℕ) (d : Data)
    → d.offset < 4
    → length d.source ≡ n
    → collect_from n d ≡ some (unmask d.mask d.offset d.source)
unfolding collect_from next_decoded next_byte unmask
collect_from-unmask n d h e = go n d.source d.offset h e
  where
    go :
        (n : ℕ) (source : Bytes) (offset : ℕ)
        → offset < 4
        → length source ≡ n
        → collect_from n (record { source = source; mask = d.mask; offset = offset })
          ≡ some (unmask d.mask offset source)
    go zero [] offset h e = refl
    go (suc n) [] offset h e = absurd (omega arith)
    go zero (b ∷ bs) offset h e = absurd (omega arith)
    go (suc n) (b ∷ bs) offset h e = ground (
      arith,
      mask_byte-mask_octet d.mask offset h,
      go n bs ((offset + 1) % 4) (omega arith) (omega arith),
    )

pub collect-unmask : (d : Data) → d.offset < 4 → collect d ≡ some (unmask d.mask d.offset d.source)
unfolding collect
collect-unmask d h = collect_from-unmask (length d.source) d h refl

pub length-unmask : (mask offset : ℕ) (bs : Bytes) → length (unmask mask offset bs) ≡ length bs
unfolding unmask
length-unmask mask offset [] = refl
length-unmask mask offset (b ∷ bs) = ap suc (length-unmask mask ((offset + 1) % 4) bs)

get_elem?-unmask :
    (mask offset : ℕ) (bs : Bytes) (i b : ℕ)
    → offset < 4
    → get_elem? bs i ≡ some b
    → get_elem? (unmask mask offset bs) i ≡ some (bit_xor b (mask_octet mask ((offset + i) % 4)))
unfolding unmask
get_elem?-unmask mask offset [] i b h e = cc
get_elem?-unmask mask offset (x ∷ bs) zero b h e =
    let same : (offset + 0) % 4 ≡ offset = omega arith in rw same (ground arith)
get_elem?-unmask mask offset (x ∷ bs) (suc i) b h e =
    let same : (offset + suc i) % 4 ≡ ((offset + 1) % 4 + i) % 4 = omega arith in
    rw same (get_elem?-unmask mask ((offset + 1) % 4) bs i b (omega arith) e)

-- The offset after a piece is where the next piece starts.
unmask-append :
    (mask offset : ℕ) (bs cs : Bytes)
    → offset < 4
    → unmask mask offset (bs ++ cs)
      ≡ unmask mask offset bs ++ unmask mask ((offset + length bs % 4) % 4) cs
unfolding unmask
unmask-append mask offset [] cs h =
    let same : (offset + 0 % 4) % 4 ≡ offset = omega arith in rw same
unmask-append mask offset (b ∷ bs) cs h =
    let same : (offset + suc (length bs) % 4) % 4 ≡ ((offset + 1) % 4 + length bs % 4) % 4 =
      omega arith in
    rw same (
      ap (◌∷◌ (bit_xor b (mask_octet mask offset)))
        (unmask-append mask ((offset + 1) % 4) bs cs (omega arith)))

pub unmask_twice : (mask offset : ℕ) (bs : Bytes) → unmask mask offset (unmask mask offset bs) ≡ bs
unfolding unmask
unmask_twice mask offset [] = refl
unmask_twice mask offset (b ∷ bs) =
    rw (bit_xor_twice b (mask_octet mask offset), unmask_twice mask ((offset + 1) % 4) bs)

-- For an offset below 4 the decoding does not panic and gives as many bytes as there are; where a
-- byte stands at `i`, the decoded one is its exclusive or with the octet of the mask at
-- the offset plus `i`, modulo 4.
pub collect_lem :
    (d : Data) (i b : ℕ)
    → d.offset < 4
    → get_elem? d.source i ≡ some b
    → (out : Bytes) × (collect d ≡ some out)
      × (length out ≡ length d.source)
      × (get_elem? out i ≡ some (bit_xor b (mask_octet d.mask ((d.offset + i) % 4))))
collect_lem d i b h e = (
  unmask d.mask d.offset d.source,
  collect-unmask d h,
  length-unmask d.mask d.offset d.source,
  get_elem?-unmask d.mask d.offset d.source i b h e,
)

-- For an offset below 4, decoding with the same mask and offset once more gives the bytes back, so that a client's
-- masking is undone.
collect_twice :
    (d : Data) (out : Bytes)
    → d.offset < 4
    → collect d ≡ some out
    → collect (record d { source = out }) ≡ some d.source
collect_twice d out h e =
    let same : unmask d.mask d.offset d.source ≡ out = cc (collect-unmask d h) in
    collect-unmask (record d { source = out }) h
    ∙ ap some (rw (← same) (unmask_twice d.mask d.offset d.source))
