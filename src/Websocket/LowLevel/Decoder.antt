-- ===== src/Websocket/LowLevel/Decoder.antt =====
-- What src/websocket/low_level.rs decodes, one byte at a time, with no slices and no buffering of
-- payloads: the specification that `feed` refines.
pub mod Prefix
pub mod Run
use rouille.Common.{
  ℕ, zero, suc, ◌+◌, ◌*◌, ◌/◌, ◌%◌, ◌^◌, Bool, List, [], ◌∷◌, ◌++◌, ltb, leb, not, ◌==◌,
  if◌then◌else◌, Bytes, Text, bit_xor, length, take, drop,
}
use rouille.Websocket.LowLevel.{reserved_bits, not_masked, length_bit}
use rouille.Websocket.LowLevel.Unmask.{mask_octet}

-- What a reader learns: the start of a frame (fin, length, opcode), one decoded byte, the end of a
-- frame, or a refusal.
pub data Event : Type 0 where
  start : Bool → ℕ → ℕ → Event
  byte : ℕ → Event
  end : Event
  refused : Text → Event

-- Inside a header that begins with these bytes, inside a payload (mask, offset, bytes left), or
-- after a refusal.
pub data Decoder : Type 0 where
  at_header : Bytes → Decoder
  at_payload : ℕ → ℕ → ℕ → Decoder
  stopped : Decoder

-- What the first bytes of a frame say: nothing yet, a refusal, or fin, length, opcode and mask.
pub data Header : Type 0 where
  incomplete : Header
  bad : Text → Header
  complete : Bool → ℕ → ℕ → ℕ → Header

abbrev big_endian_from : ℕ → Bytes → ℕ
big_endian_from acc [] = acc
big_endian_from acc (b ∷ bs) = big_endian_from (acc * 256 + b) bs

abbrev pub big_endian : Bytes → ℕ
big_endian = big_endian_from 0

-- A header with a length of `k` bytes that must be below `limit`; `t` follows the first two bytes.
unfoldable pub extended : ℕ → ℕ → ℕ → Bytes → Header
extended k limit a t =
    let len = big_endian (take k t) in
    if ltb (length t) (k + 4)
    then incomplete
    else if leb limit len
    then bad length_bit
    else complete (leb 128 a) len (a % 16) (big_endian (take 4 (drop k t)))

-- What follows the first two bytes of a masked frame.
unfoldable pub header_behind : ℕ → ℕ → Bytes → Header
header_behind a b t =
    if b % 128 == 126
    then extended 2 (2 ^ 16) a t
    else if b % 128 == 127
    then extended 8 (2 ^ 63) a t
    else complete (leb 128 a) (b % 128) (a % 16) (big_endian (take 4 t))

-- The header of RFC 6455, section 5.2: a length of 7, 16 or 63 bits, and a mask.
unfoldable pub header_of : Bytes → Header
unfolding header_behind
header_of (a ∷ b ∷ t) =
    if ltb (length t) 4
    then incomplete
    else if not (a / 16 % 8 == 0)
    then bad reserved_bits
    else if ltb b 128
    then bad not_masked
    else header_behind a b t
header_of _ = incomplete

abbrev pub header_size_of : ℕ → ℕ
header_size_of b = if b % 128 == 126 then 8 else if b % 128 == 127 then 14 else 6

abbrev pub header_size : Bytes → ℕ
header_size (a ∷ b ∷ t) = header_size_of b
header_size _ = 6

-- One byte more of a header.
unfoldable pub enter : Bytes → Header → Decoder
enter h incomplete = at_header h
enter h (bad desc) = stopped
enter h (complete fin len opcode mask) = at_payload mask 0 len

unfoldable pub announce : Header → List Event
announce incomplete = []
announce (bad desc) = refused desc ∷ []
announce (complete fin len opcode mask) = start fin len opcode ∷ []

-- The state after one byte. The end of a frame with no payload shows at the next byte.
unfoldable pub decode_byte : Decoder → ℕ → Decoder
unfolding enter
decode_byte (at_header h) x = enter (h ++ x ∷ []) (header_of (h ++ x ∷ []))
decode_byte (at_payload mask offset zero) x = at_header (x ∷ [])
decode_byte (at_payload mask offset (suc zero)) x = at_header []
decode_byte (at_payload mask offset (suc (suc r))) x = at_payload mask ((offset + 1) % 4) (suc r)
decode_byte stopped x = stopped

unfoldable pub emit : Decoder → ℕ → List Event
unfolding announce
emit (at_header h) x = announce (header_of (h ++ x ∷ []))
emit (at_payload mask offset zero) x = end ∷ []
emit (at_payload mask offset (suc zero)) x = byte (bit_xor x (mask_octet mask offset)) ∷ end ∷ []
emit (at_payload mask offset (suc (suc r))) x = byte (bit_xor x (mask_octet mask offset)) ∷ []
emit stopped x = []

unfoldable pub after : Decoder → Bytes → Decoder
unfolding decode_byte
after d [] = d
after d (x ∷ xs) = after (decode_byte d x) xs

unfoldable pub events : Decoder → Bytes → List Event
unfolding decode_byte emit
events d [] = []
events d (x ∷ xs) = emit d x ++ events (decode_byte d x) xs
