-- ===== src/Websocket/Frame.antt =====
-- `send` of src/websocket/websocket.rs: one unmasked frame, written in pieces.
pub mod RoundTrip
use rouille.Common.{
  ℕ, ◌+◌, ◌*◌, ◌/◌, ◌%◌, ◌^◌, Bool, true, false, not, Option, none, some, List, [], ◌∷◌, ◌++◌, ltb,
  leb, ◌==◌, if◌then◌else◌, ◌>>=◌, length, Bytes, bit_or,
}

-- `Box<dyn ReadWrite + Send>`, which tiny_http gives: what one `read` brings, and whether a write
-- succeeds.
pub data ReadResult : Type 0 where
  received : Bytes → ReadResult
  interrupted : ReadResult
  failed : ReadResult

pub record ReadWrite : Type 1 where
  pub Stream : Type 0
  pub read : Stream → ReadResult × Stream
  pub write_all : Bytes → Stream → Bool × Stream
  pub flush : Stream → Bool × Stream

-- `to_be_bytes` of a number of so many bytes.
abbrev pub u16_be : ℕ → Bytes
u16_be n = (n / 0x100 % 256) ∷ (n % 256) ∷ []

abbrev pub u64_be : ℕ → Bytes
u64_be n =
    (n / 0x100000000000000 % 256)
    ∷ (n / 0x1000000000000 % 256)
    ∷ (n / 0x10000000000 % 256)
    ∷ (n / 0x100000000 % 256)
    ∷ (n / 0x1000000 % 256)
    ∷ (n / 0x10000 % 256)
    ∷ (n / 0x100 % 256)
    ∷ (n % 256)
    ∷ []

-- The pieces that `send` writes, in order. `none` is a failed `assert!`.
unfoldable pub frame_pieces : Bytes → ℕ → Option (List Bytes)
frame_pieces data_bytes opcode =
    let first_byte = bit_or 0x80 opcode in
    let n = length data_bytes in
    if not (leb opcode 0xf)
    then none
    else if leb 65536 n
    then if not (ltb n 0x8000000000000000)
      then none
      else some ((first_byte ∷ []) ∷ (127 ∷ []) ∷ u64_be n ∷ data_bytes ∷ [])
    else if leb 126 n
    then some ((first_byte ∷ []) ∷ (126 ∷ []) ∷ u16_be (n % 2 ^ 16) ∷ data_bytes ∷ [])
    else some ((first_byte ∷ []) ∷ ((n % 2 ^ 8) ∷ []) ∷ data_bytes ∷ [])

module _ (io : ReadWrite) where
  open io use {Stream, write_all, flush}

  -- `dest.write_all(…)?` for each piece, then `dest.flush()?`.
  unfoldable pub write_pieces : List Bytes → Stream → Bool × Stream
  write_pieces [] dest = flush dest
  write_pieces (p ∷ ps) dest =
      let (done, dest') = write_all p dest in
      let rest = write_pieces ps dest' in if done then rest else (false, dest')

  -- Whether the frame went out, and the stream behind it.
  unfoldable pub send : Bytes → Stream → ℕ → Option (Bool × Stream)
  unfolding frame_pieces write_pieces
  send data_bytes dest opcode =
      frame_pieces data_bytes opcode >>= λ pieces. some (write_pieces pieces dest)
