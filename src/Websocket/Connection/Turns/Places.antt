-- ===== src/Websocket/Connection/Turns/Places.antt =====
-- Where the decoder is between the elements of a frame, and the payload of the frame so far
-- (src/websocket/low_level.rs and src/websocket/websocket.rs).
use rouille.Common.{ℕ, ◌<◌, ◌≡◌, Bool, true, false, [], Bytes, Text}
use rouille.Websocket.LowLevel.{
  Data, frame_start, payload, error, StateMachineInner, in_header, in_data,
}
use rouille.Websocket.LowLevel.Refinement.{Goes}

-- Nothing of a frame is there between two frames.
abbrev pub Clean : StateMachineInner → Bytes → Type 0
Clean in_header bytes = bytes ≡ []
Clean (in_data mask offset r) bytes = Unit

pub Clean-nil : (inner : StateMachineInner) (bytes : Bytes) → bytes ≡ [] → Clean inner bytes
Clean-nil in_header bytes e = e
Clean-nil (in_data mask offset r) bytes e = tt

-- Data that is not the last of its frame leaves the decoder inside the frame.
abbrev Stays : Bool → StateMachineInner → Type 0
Stays false (in_data mask offset r) = Unit
Stays false in_header = ⊥
Stays true inner = Unit

pub Goes-payload :
    (inner inner' : StateMachineInner) (d : Data) (last : Bool)
    → Goes inner (payload d last) inner'
    → (d.offset < 4) × Stays last inner'
Goes-payload in_header in_header d last h = absurd h
Goes-payload in_header (in_data mask offset r) d last h = absurd h
Goes-payload (in_data mask offset r) in_header d true h = (h, tt)
Goes-payload (in_data mask offset r) in_header d false h = absurd h
Goes-payload (in_data mask offset r) (in_data mask' offset' r') d true h = absurd h
Goes-payload (in_data mask offset r) (in_data mask' offset' r') d false h = (h, tt)

pub Goes-frame_start :
    (inner inner' : StateMachineInner) (fin : Bool) (len opcode : ℕ) (bytes : Bytes)
    → Goes inner (frame_start fin len opcode) inner'
    → Clean inner bytes
    → bytes ≡ []
Goes-frame_start in_header inner' fin len opcode bytes h c = c
Goes-frame_start (in_data mask offset r) in_header fin len opcode bytes h c = absurd h
Goes-frame_start (in_data mask offset r) (in_data mask' offset' r') fin len opcode bytes h c =
    absurd h

pub Goes-error : (inner inner' : StateMachineInner) (desc : Text) → ¬ Goes inner (error desc) inner'
Goes-error in_header in_header desc h = h
Goes-error in_header (in_data mask offset r) desc h = h
Goes-error (in_data mask offset r) in_header desc h = h
Goes-error (in_data mask offset r) (in_data mask' offset' r') desc h = h

pub Stays-Clean :
    (inner : StateMachineInner) (bytes : Bytes) → Stays false inner → Clean inner bytes
Stays-Clean in_header bytes h = absurd h
Stays-Clean (in_data mask offset r) bytes h = tt
