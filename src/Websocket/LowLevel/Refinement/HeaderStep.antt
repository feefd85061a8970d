-- ===== src/Websocket/LowLevel/Refinement/HeaderStep.antt =====
-- The first situation of `ElementsIter::next`, in terms of the header that the buffer and the
-- input spell together.
use rouille.Common.{
  ℕ, suc, ◌+◌, ◌-◌, ◌%◌, ◌≤◌, ◌<◌, ◌≡◌, refl, sym, ap, ◌∙◌, Bool, Bool-cases, inl, inr, Option,
  none, some, [], ◌∷◌, ◌++◌, ltb, leb, length, length-append, drop, Bytes, arith,
}
use rouille.Common.Bits.{bit_and_127, bit_and_128, bit_and_112, bit_and_15}
use rouille.Websocket.LowLevel.{
  data_start_off, start_frame, next_in_header, Element, frame_start, error, in_data, StateMachine,
  ElementsIter, feed, buffered,
}
use rouille.Websocket.LowLevel.Decoder.{
  Header, incomplete, bad, complete, header_of, header_behind, extended, header_size,
  header_size_of,
}
use rouille.Websocket.LowLevel.Decoder.Prefix.{header_size-incomplete, size_above}
use rouille.Websocket.LowLevel.Refinement.Reading.{AllBytes, read_of, length_and_mask_lem}

data_start_off_lem : (b : ℕ) → b < 256 → data_start_off b ≡ header_size_of b
unfolding data_start_off
data_start_off_lem b h = ground (arith, bit_and_127 b)

-- What `next` returns in each case.
abbrev pub outcome : StateMachine → Bytes → Header → Option (Option Element × ElementsIter)
outcome s input incomplete = some (none, buffered s input)
outcome s input (bad desc) = some (some (error desc), feed s input)
outcome s input (complete fin len opcode mask) = some (
  some (frame_start fin len opcode),
  feed (record { inner = in_data mask 0 len; buffer = [] })
      (drop (header_size (s.buffer ++ input) - length s.buffer) input),
)

-- The cut behind the header lies in the input.
start_frame_lem :
    (s : StateMachine) (input : Bytes) (a b : ℕ) (t : Bytes)
    → s.buffer ++ input ≡ a ∷ b ∷ t
    → a < 256
    → b < 256
    → length s.buffer < header_size_of b
    → ((fin : Bool) (len opcode mask : ℕ)
        → header_behind a b t ≡ complete fin len opcode mask
        → (header_size_of b ≤ length s.buffer + length input)
          × (fin ≡ leb 128 a)
          × (opcode ≡ a % 16))
    → start_frame s input a b (read_of (header_behind a b t))
      ≡ outcome s input (header_behind a b t)
unfolding start_frame
start_frame_lem s input a b t e p q short fits = go (header_behind a b t) fits
  where
    go :
        (r : Header)
        → ((fin : Bool) (len opcode mask : ℕ)
            → r ≡ complete fin len opcode mask
            → (header_size_of b ≤ length s.buffer + length input)
              × (fin ≡ leb 128 a)
              × (opcode ≡ a % 16))
        → start_frame s input a b (read_of r) ≡ outcome s input r
    go incomplete k = refl
    go (bad desc) k = refl
    go (complete fin len opcode mask) k =
        let (room, f, o) = k fin len opcode mask refl in
        rw (e, f, o, data_start_off_lem b q) (ground (arith, bit_and_128 a, bit_and_15 a))

behind_fields :
    (a b : ℕ) (t : Bytes) (fin : Bool) (len opcode mask : ℕ)
    → header_behind a b t ≡ complete fin len opcode mask
    → (fin ≡ leb 128 a) × (opcode ≡ a % 16)
unfolding header_behind extended
behind_fields a b t fin len opcode mask e = ground arith

behind_size :
    (a b : ℕ) (t : Bytes) (fin : Bool) (len opcode mask : ℕ)
    → header_behind a b t ≡ complete fin len opcode mask
    → 4 ≤ length t
    → header_size_of b ≤ suc (suc (length t))
unfolding header_behind extended
behind_size a b t fin len opcode mask e h = ground arith

module _ (s : StateMachine) (input : Bytes) (waiting : header_of s.buffer ≡ incomplete) where
  -- From the second byte on.
  chained_lem :
      (a b : ℕ) (t : Bytes)
      → s.buffer ++ input ≡ a ∷ b ∷ t
      → AllBytes (a ∷ b ∷ t)
      → next_in_header s input ≡ outcome s input (header_of (a ∷ b ∷ t))
  unfolding next_in_header header_of
  chained_lem a b t e p =
      let total : length s.buffer + length input ≡ suc (suc (length t)) =
        sym (length-append s.buffer input) ∙ ap length e in
      elim (Bool-cases (ltb (length t) 4)) [
        | inl less ↦ rw less (ground arith)
        | inr enough ↦
            let read = rw (← total) at (length_and_mask_lem a b t p.1 (ground arith)) in
            let above =
              rw e at (size_above s.buffer input (header_size-incomplete s.buffer waiting)) in
            let cut = start_frame_lem s input a b t e p.0 p.1.0 above (λ fin len opcode mask c.
              let size = behind_size a b t fin len opcode mask c (ground arith) in
              let (f, o) = behind_fields a b t fin len opcode mask c in (omega arith, f, o)) in
            ground (arith, bit_and_112 a, bit_and_128 b)
      ]

  pub next_in_header_lem :
      AllBytes (s.buffer ++ input)
      → next_in_header s input ≡ outcome s input (header_of (s.buffer ++ input))
  unfolding next_in_header header_of
  next_in_header_lem p = go (s.buffer ++ input) refl p
    where
      total : length (s.buffer ++ input) ≡ length s.buffer + length input
      total = length-append s.buffer input

      go :
          (c : Bytes)
          → s.buffer ++ input ≡ c
          → AllBytes c
          → next_in_header s input ≡ outcome s input (header_of c)
      go [] e p = ground (arith, ap length e)
      go (a ∷ []) e p = ground (arith, ap length e)
      go (a ∷ b ∷ t) e p = chained_lem a b t e p
