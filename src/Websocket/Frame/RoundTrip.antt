-- ===== src/Websocket/Frame/RoundTrip.antt =====
-- What a client reads from the frames that `send` of src/websocket/websocket.rs writes.
use rouille.Common.{
  ℕ, ◌/◌, ◌%◌, ◌^◌, ◌<◌, ◌≤◌, ◌≡◌, refl, ◌∙◌, Bool, true, false, not, Option, none, some, List, [],
  ◌∷◌, ◌++◌, ltb, leb, ◌==◌, if◌then◌else◌, length, length-append, take, drop, drop-append,
  take-append, append-nil, dec_lt, Bytes, arith, bit_or,
}
use rouille.Common.Bits.{bit_or_128}
use rouille.Websocket.Frame.{frame_pieces, u16_be, u64_be}
use rouille.Websocket.LowLevel.Decoder.{big_endian}

-- A frame of RFC 6455, section 5.2, as a client reads it from a server: fin, opcode and payload.
pub record Frame : Type 0 where
  pub fin : Bool
  pub opcode : ℕ
  pub payload : Bytes

abbrev cut : ℕ → ℕ → Bytes → Option (Frame × Bytes)
cut a n t =
    if ltb (length t) n
    then none
    else some (record { fin = leb 128 a; opcode = a % 16; payload = take n t }, drop n t)

abbrev read_length : ℕ → ℕ → Bytes → Option (Frame × Bytes)
read_length a k t = if ltb (length t) k then none else cut a (big_endian (take k t)) (drop k t)

-- The first frame of a stream and the rest; refused with reserved bits, or with a mask.
unfoldable pub read_frame : Bytes → Option (Frame × Bytes)
read_frame (a ∷ b ∷ t) =
    if not (a / 16 % 8 == 0)
    then none
    else if leb 128 b
    then none
    else if b == 126
    then read_length a 2 t
    else if b == 127
    then read_length a 8 t
    else cut a b t
read_frame _ = none

abbrev pub joined : List Bytes → Bytes
joined [] = []
joined (p ∷ ps) = p ++ joined ps

cut_lem :
    (a : ℕ) (payload rest : Bytes)
    → cut a (length payload) (payload ++ rest)
      ≡ some (record { fin = leb 128 a; opcode = a % 16; payload = payload }, rest)
cut_lem a payload rest =
    let long : ltb (length (payload ++ rest)) (length payload) ≡ false =
      ground (arith, length-append payload rest) in
    rw (long, take-append payload rest, drop-append payload rest) refl

u16_be_lem : (n : ℕ) → n < 2 ^ 16 → big_endian (u16_be n) ≡ n
u16_be_lem n h = omega arith

u64_be_lem : (n : ℕ) → n < 2 ^ 64 → big_endian (u64_be n) ≡ n
u64_be_lem n h = omega arith

read_short :
    (a : ℕ) (payload rest : Bytes)
    → a / 16 % 8 ≡ 0
    → length payload < 126
    → read_frame (a ∷ length payload ∷ (payload ++ rest))
      ≡ some (record { fin = leb 128 a; opcode = a % 16; payload = payload }, rest)
unfolding read_frame
read_short a payload rest p h = ground (arith, cut_lem a payload rest)

read_16 :
    (a : ℕ) (payload rest : Bytes)
    → a / 16 % 8 ≡ 0
    → length payload < 2 ^ 16
    → read_frame (a ∷ 126 ∷ (u16_be (length payload) ++ (payload ++ rest)))
      ≡ some (record { fin = leb 128 a; opcode = a % 16; payload = payload }, rest)
unfolding read_frame
read_16 a payload rest p h = ground (arith, u16_be_lem (length payload) h, cut_lem a payload rest)

read_64 :
    (a : ℕ) (payload rest : Bytes)
    → a / 16 % 8 ≡ 0
    → length payload < 2 ^ 64
    → read_frame (a ∷ 127 ∷ (u64_be (length payload) ++ (payload ++ rest)))
      ≡ some (record { fin = leb 128 a; opcode = a % 16; payload = payload }, rest)
unfolding read_frame
read_64 a payload rest p h = ground (arith, u64_be_lem (length payload) h, cut_lem a payload rest)

first_byte_lem :
    (opcode : ℕ)
    → opcode ≤ 15
    → (bit_or 0x80 opcode / 16 % 8 ≡ 0)
      × (leb 128 (bit_or 0x80 opcode) ≡ true)
      × (bit_or 0x80 opcode % 16 ≡ opcode)
first_byte_lem opcode h = ground (arith, bit_or_128 opcode)

-- The three forms of a frame.
data Form (payload : Bytes) (opcode : ℕ) (pieces : List Bytes) : Type 0 where
  short :
      length payload < 126
      → pieces ≡ (bit_or 0x80 opcode ∷ []) ∷ (length payload ∷ []) ∷ payload ∷ []
      → Form payload opcode pieces
  medium :
      length payload < 2 ^ 16
      → pieces ≡ (bit_or 0x80 opcode ∷ []) ∷ (126 ∷ []) ∷ u16_be (length payload) ∷ payload ∷ []
      → Form payload opcode pieces
  long :
      length payload < 2 ^ 64
      → pieces ≡ (bit_or 0x80 opcode ∷ []) ∷ (127 ∷ []) ∷ u64_be (length payload) ∷ payload ∷ []
      → Form payload opcode pieces

frame_pieces-Form :
    (payload : Bytes) (opcode : ℕ) (pieces : List Bytes)
    → frame_pieces payload opcode ≡ some pieces
    → (opcode ≤ 15) × Form payload opcode pieces
unfolding frame_pieces
frame_pieces-Form payload opcode pieces e = elim (dec_lt (length payload) 126) [
  | yes a ↦ (ground arith, short a (ground arith))
  | no b ↦ elim (dec_lt (length payload) 65536) [
    | yes c ↦ (ground arith, medium c (ground arith))
    | no d ↦ (ground arith, long (ground arith) (ground arith))
  ]
]

-- A frame that is sent reads back as one final frame with the opcode and the data, whatever bytes
-- follow it.
pub read_frame-frame_pieces :
    (payload rest : Bytes) (opcode : ℕ) (pieces : List Bytes)
    → frame_pieces payload opcode ≡ some pieces
    → read_frame (joined pieces ++ rest)
      ≡ some (record { fin = true; opcode = opcode; payload = payload }, rest)
read_frame-frame_pieces payload rest opcode pieces e =
    let (small, form) = frame_pieces-Form payload opcode pieces e in
    let (reserved, final, low) = first_byte_lem opcode small in
    let a = bit_or 0x80 opcode in
    elim form [
      | short n p ↦ rw (p, append-nil) (read_short a payload rest reserved n ∙ rw (final, low) refl)
      | medium n p ↦ rw (p, append-nil) (read_16 a payload rest reserved n ∙ rw (final, low) refl)
      | long n p ↦ rw (p, append-nil) (read_64 a payload rest reserved n ∙ rw (final, low) refl)
    ]
