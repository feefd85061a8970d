-- ===== src/Websocket/LowLevel.antt =====
-- src/websocket/low_level.rs: the decoder of client frames. A result `none` is a panic: an
-- `unwrap` at the end of a slice, or the failed `assert!` before the data is cut.
pub mod Decoder
pub mod Unmask
pub mod Elements
pub mod Refinement
use rouille.Common.{
  ℕ, zero, suc, ◌+◌, ◌-◌, ◌*◌, ◌/◌, ◌%◌, ◌^◌, Bool, true, false, not, Option, none, some, List, [],
  ◌∷◌, ◌++◌, ltb, leb, ◌==◌, if◌then◌else◌, ◌>>=◌, length, is_empty, take, drop, Bytes, Text, text,
  bit_and, bit_xor,
}

-- `Data`: the bytes of a frame that have arrived, still masked.
pub record Data : Type 0 where
  pub source : Bytes
  pub mask : ℕ
  pub offset : ℕ

pub data Element : Type 0 where
  frame_start : Bool → ℕ → ℕ → Element
  payload : Data → Bool → Element
  error : Text → Element

pub data StateMachineInner : Type 0 where
  in_header : StateMachineInner
  in_data : ℕ → ℕ → ℕ → StateMachineInner

pub record StateMachine : Type 0 where
  pub inner : StateMachineInner
  pub buffer : Bytes

abbrev pub new : StateMachine
new = record { inner = in_header; buffer = [] }

-- `ElementsIter`
pub record ElementsIter : Type 0 where
  pub state : StateMachine
  pub input : Bytes

abbrev pub feed : StateMachine → Bytes → ElementsIter
feed s input = record { state = s; input = input }

-- `*iter.next().unwrap()`
abbrev next_unwrap : Bytes → Option (ℕ × Bytes)
next_unwrap [] = none
next_unwrap (b ∷ it) = some (b, it)

unfoldable pub read_u16_be : Bytes → Option (ℕ × Bytes)
read_u16_be it = do (a, it₁) ← next_unwrap it; (b, it₂) ← next_unwrap it₁; some (a * 0x100 + b, it₂)

unfoldable pub read_u32_be : Bytes → Option (ℕ × Bytes)
unfolding read_u16_be
read_u32_be it = do
  (a, it₁) ← next_unwrap it
  (b, it₂) ← next_unwrap it₁
  (c, it₃) ← next_unwrap it₂
  (d, it₄) ← next_unwrap it₃
  some (a * 0x1000000 + b * 0x10000 + c * 0x100 + d, it₄)

unfoldable pub read_u64_be : Bytes → Option (ℕ × Bytes)
read_u64_be it = do
  (a, it₁) ← next_unwrap it
  (b, it₂) ← next_unwrap it₁
  (c, it₃) ← next_unwrap it₂
  (d, it₄) ← next_unwrap it₃
  (e, it₅) ← next_unwrap it₄
  (f, it₆) ← next_unwrap it₅
  (g, it₇) ← next_unwrap it₆
  (h, it₈) ← next_unwrap it₇
  some (
    a * 0x100000000000000
        + b * 0x1000000000000
        + c * 0x10000000000
        + d * 0x100000000
        + e * 0x1000000
        + f * 0x10000
        + g * 0x100
        + h,
    it₈,
  )

-- What the rest of a header says: more bytes are wanted, it is refused, or its length and mask.
pub data HeaderRead : Type 0 where
  wait : HeaderRead
  refuse : Text → HeaderRead
  header : ℕ → ℕ → HeaderRead

abbrev pub reserved_bits : Text
reserved_bits = text "Reserved bits must be zero"

abbrev pub not_masked : Text
not_masked = text "Client-to-server messages must be masked"

abbrev pub length_bit : Text
length_bit = text "Most-significant bit of the length must be zero"

-- `let (length, mask) = match second_byte & 0x7f { … }`
unfoldable pub length_and_mask : Bytes → ℕ → ℕ → Option HeaderRead
length_and_mask chained total_buffered second_byte =
    let n = bit_and second_byte 0x7f in
    if n == 126
    then if ltb total_buffered 8 then some wait else (do
      (length, it) ← read_u16_be (drop 2 chained)
      (mask, _) ← read_u32_be it
      some (header length mask))
    else if n == 127
    then if ltb total_buffered 14 then some wait else (do
      (length, it) ← read_u64_be (drop 2 chained)
      if not (bit_and length 0x8000000000000000 == 0)
          then some (refuse length_bit)
          else (do (mask, _) ← read_u32_be it; some (header length mask)))
    else do (mask, _) ← read_u32_be (drop 2 chained); some (header n mask)

-- `let data_start_off = match second_byte & 0x7f { … }`
unfoldable pub data_start_off : ℕ → ℕ
data_start_off second_byte =
    let n = bit_and second_byte 0x7f in if n == 126 then 8 else if n == 127 then 14 else 6

-- `&data[n..]`
abbrev slice_from : ℕ → Bytes → Option Bytes
slice_from n data_slice = if leb n (length data_slice) then some (drop n data_slice) else none

-- The state in which the buffer is extended with all the input.
abbrev pub buffered : StateMachine → Bytes → ElementsIter
buffered s input = feed (record s { buffer = s.buffer ++ input }) []

-- The end of the first situation, from `data_start` on.
unfoldable pub start_frame :
    StateMachine → Bytes → ℕ → ℕ → HeaderRead → Option (Option Element × ElementsIter)
unfolding data_start_off
start_frame s input first_byte second_byte wait = some (none, buffered s input)
start_frame s input first_byte second_byte (refuse desc) = some (some (error desc), feed s input)
start_frame s input first_byte second_byte (header len mask) =
    let off = data_start_off second_byte in
    if ltb (length s.buffer) off
    then (do
      data_start ← slice_from (off - length s.buffer) input
      some (
        some (frame_start (not (bit_and first_byte 0x80 == 0)) len (bit_and first_byte 0xf)),
        feed (record { inner = in_data mask 0 len; buffer = [] }) data_start,
      ))
    else none

-- The first situation of `ElementsIter::next`.
unfoldable pub next_in_header : StateMachine → Bytes → Option (Option Element × ElementsIter)
next_in_header s input =
    let total_buffered = length s.buffer + length input in
    let chained = s.buffer ++ input in
    if ltb total_buffered 6 then some (none, buffered s input) else do
      (first_byte, mask_iter) ← next_unwrap chained
      (second_byte, _) ← next_unwrap mask_iter
      if not (bit_and first_byte 0x70 == 0)
          then some (some (error reserved_bits), feed s input)
          else if bit_and second_byte 0x80 == 0
          then some (some (error not_masked), feed s input)
          else do
            read ← length_and_mask chained total_buffered second_byte
            start_frame s input first_byte second_byte read

-- The second and the third situation.
unfoldable pub next_in_data : StateMachine → Bytes → ℕ → ℕ → ℕ → Option Element × ElementsIter
next_in_data s input mask offset remaining_len =
    if ltb (length input) remaining_len
    then (
      some (payload (record { source = input; mask = mask; offset = offset }) false),
      feed
          (record s {
            inner = in_data mask ((offset + length input % 4) % 4) (remaining_len - length input);
          })
          [],
    )
    else (
      some (
          payload (record { source = take remaining_len input; mask = mask; offset = offset })
            true),
      feed (record s { inner = in_header }) (drop remaining_len input),
    )

unfoldable pub next_at :
    StateMachineInner → StateMachine → Bytes → Option (Option Element × ElementsIter)
next_at in_header s input = next_in_header s input
next_at (in_data mask offset remaining_len) s input =
    some (next_in_data s input mask offset remaining_len)

-- `ElementsIter::next`
unfoldable pub next : ElementsIter → Option (Option Element × ElementsIter)
unfolding next_at next_in_header next_in_data start_frame length_and_mask read_u16_be read_u32_be
    read_u64_be
next it = if is_empty it.input then some (none, it) else next_at it.state.inner it.state it.input
