-- ===== src/Websocket/Connection/WholeFrame.antt =====
-- A whole frame in the bytes that one read gives, from the stream to the message (the loop of
-- `Websocket::next` in src/websocket/websocket.rs over src/websocket/low_level.rs).
use rouille.Common.{
  ℕ, suc, ◌+◌, ◌*◌, ◌<◌, ◌≡◌, refl, ap, ◌∙◌, Bool, true, false, none, Option, some, [], ◌∷◌, ◌++◌,
  if◌then◌else◌, length, take, drop, zero, is_empty, Bytes, arith,
}
use rouille.Common.Bits.{bit_and_112, bit_and_128, bit_and_127, bit_and_15}
use rouille.Websocket.LowLevel.{
  frame_start, payload, in_header, in_data, StateMachine, feed, next, next_in_header, next_in_data,
  length_and_mask, start_frame, data_start_off, read_u32_be,
}
use rouille.Websocket.LowLevel.Unmask.{unmask, length-unmask}
use rouille.Websocket.LowLevel.Elements.{rounds}
use rouille.Websocket.Frame.{ReadWrite, received}
use rouille.Websocket.Connection.{
  Message, Websocket, go_on, again, returns, dispatch, on_data, dispatch_text, on_element,
  on_elements, on_read, on_queue, turn, next_message,
}
use rouille.Websocket.Connection.Frames.{masked, collect-masked, message_of}

-- The mask of four bytes, the first one in front.
abbrev mask_of : ℕ → ℕ → ℕ → ℕ → ℕ
mask_of a b c d = a * 0x1000000 + b * 0x10000 + c * 0x100 + d

-- A final frame of a client with fewer than 126 bytes: the opcode, the length, the mask, and the
-- masked bytes.
abbrev pub client_frame : ℕ → ℕ → ℕ → ℕ → ℕ → Bytes → Bytes
client_frame opcode a b c d bytes =
    (128 + opcode) ∷ (128 + length bytes) ∷ a ∷ b ∷ c ∷ d ∷ unmask (mask_of a b c d) 0 bytes

abbrev pub between : StateMachine
between = record { inner = in_header; buffer = [] }

next-client_frame :
    (opcode a b c d : ℕ) (bytes : Bytes)
    → opcode < 16
    → length bytes < 126
    → next (feed between (client_frame opcode a b c d bytes))
      ≡ some (
        some (frame_start true (length bytes) opcode),
        feed
            (record { inner = in_data (mask_of a b c d) 0 (length bytes); buffer = [] })
            (unmask (mask_of a b c d) 0 bytes),
      )
unfolding next next_in_header length_and_mask start_frame data_start_off read_u32_be
next-client_frame opcode a b c d bytes o short = ground (
  arith,
  bit_and_112 (128 + opcode),
  bit_and_128 (128 + opcode),
  bit_and_15 (128 + opcode),
  bit_and_128 (128 + length bytes),
  bit_and_127 (128 + length bytes),
  length-unmask (mask_of a b c d) 0 bytes,
)

take_all : (n : ℕ) (bytes : Bytes) → length bytes ≡ n → take n bytes ≡ bytes
take_all zero [] e = refl
take_all (suc n) [] e = refl
take_all zero (b ∷ bytes) e = absurd (omega arith)
take_all (suc n) (b ∷ bytes) e = ap (◌∷◌ b) (take_all n bytes (omega arith))

drop_all : (n : ℕ) (bytes : Bytes) → length bytes ≡ n → drop n bytes ≡ []
drop_all zero [] e = refl
drop_all (suc n) [] e = refl
drop_all zero (b ∷ bytes) e = absurd (omega arith)
drop_all (suc n) (b ∷ bytes) e = drop_all n bytes (omega arith)

next_all :
    (mask n : ℕ) (source : Bytes)
    → length source ≡ n
    → is_empty source ≡ false
    → next (feed (record { inner = in_data mask 0 n; buffer = [] }) source)
      ≡ some (
        some (payload (record { source = source; mask = mask; offset = 0 }) true),
        feed between [],
      )
unfolding next next_in_data
next_all mask n source e h = ground (arith, take_all n source e, drop_all n source e)

is_empty-unmask : (mask : ℕ) (bytes : Bytes) → is_empty (unmask mask 0 bytes) ≡ is_empty bytes
unfolding unmask
is_empty-unmask mask [] = refl
is_empty-unmask mask (b ∷ bytes) = refl

next_nothing : next (feed between []) ≡ some (none, feed between [])
unfolding next
next_nothing = refl

opcode_lem : (is_binary : Bool) → (if is_binary then 0x2 else 0x1) < 16
opcode_lem true = omega arith
opcode_lem false = omega arith

-- What a final frame of a message comes to between messages.
module _ (io : ReadWrite) where
  open io use {Stream, read}

  -- The connection with the message queued, ready for the next frame.
  abbrev with_message : Bool → Message → Websocket Stream → Websocket Stream
  with_message is_binary m ws = record ws {
    state_machine = between;
    current_frame_opcode = if is_binary then 0x2 else 0x1;
    current_frame_fin = true;
    current_frame_payload = [];
    messages_in_queue = ws.messages_in_queue ++ m ∷ [];
  }

  started :
      (is_binary : Bool) (s : StateMachine) (n : ℕ) (ws : Websocket Stream)
      → ws.current_frame_payload ≡ []
      → on_element io
          (record ws { state_machine = s })
          (frame_start true n (if is_binary then 0x2 else 0x1))
        ≡ some (
            go_on (record ws {
              state_machine = s;
              current_frame_opcode = if is_binary then 0x2 else 0x1;
              current_frame_fin = true;
            }))
  unfolding on_element
  started is_binary s n ws e = ground (arith, e)

  finished :
      (is_binary : Bool) (mask : ℕ) (bytes : Bytes) (ws : Websocket Stream) (m : Message)
      → ws.current_message_payload ≡ []
      → ws.current_frame_payload ≡ []
      → message_of io is_binary bytes ≡ some m
      → on_element io
          (record ws {
            state_machine = between;
            current_frame_opcode = if is_binary then 0x2 else 0x1;
            current_frame_fin = true;
          })
          (payload (masked mask bytes) true)
        ≡ some (go_on (with_message is_binary m ws))
  unfolding on_element dispatch on_data dispatch_text
  finished true mask bytes ws m e f h = ground (arith, collect-masked mask bytes)
  finished false mask bytes ws m e f h = ground (arith, collect-masked mask bytes)

  frame_elements :
      (is_binary : Bool) (a b c d k : ℕ) (bytes : Bytes) (ws : Websocket Stream) (m : Message)
      → ws.current_message_payload ≡ []
      → ws.current_frame_payload ≡ []
      → is_empty bytes ≡ false
      → length bytes < 126
      → message_of io is_binary bytes ≡ some m
      → on_elements io
          (suc (suc (suc k)))
          ws
          (feed between (client_frame (if is_binary then 0x2 else 0x1) a b c d bytes))
        ≡ some (go_on (with_message is_binary m ws))
  unfolding on_elements
  frame_elements is_binary a b c d k bytes ws m e f full short h = ground (
    arith,
    next-client_frame (if is_binary then 0x2 else 0x1) a b c d bytes (opcode_lem is_binary) short,
    started is_binary (record { inner = in_data (mask_of a b c d) 0 (length bytes); buffer = [] })
        (length bytes) ws f,
    next_all (mask_of a b c d) (length bytes) (unmask (mask_of a b c d) 0 bytes)
        (length-unmask (mask_of a b c d) 0 bytes) (is_empty-unmask (mask_of a b c d) bytes ∙ full),
    finished is_binary (mask_of a b c d) bytes ws m e f h,
    next_nothing,
  )

  frame_read :
      (is_binary : Bool) (a b c d : ℕ) (bytes : Bytes) (ws : Websocket Stream) (m : Message)
      → ws.state_machine ≡ between
      → ws.current_message_payload ≡ []
      → ws.current_frame_payload ≡ []
      → is_empty bytes ≡ false
      → length bytes < 126
      → message_of io is_binary bytes ≡ some m
      → on_read io ws (received (client_frame (if is_binary then 0x2 else 0x1) a b c d bytes))
        ≡ some (again (with_message is_binary m ws))
  unfolding on_read
  frame_read is_binary a b c d bytes ws m state e f full short h =
      let n = length-unmask (mask_of a b c d) 0 bytes in
      let frame = client_frame (if is_binary then 0x2 else 0x1) a b c d bytes in
      let many : rounds frame ≡ suc (suc (suc (2 * length bytes + 11))) = omega (arith, n) in
      let run =
        frame_elements is_binary a b c d (2 * length bytes + 11) bytes ws m e f full short h in
      ground (arith, n, many, run, state)

  two_turns :
      (ws ws' ws'' : Websocket Stream) (m : Option Message)
      → turn io ws ≡ some (again ws')
      → turn io ws' ≡ some (returns m ws'')
      → next_message io 2 ws ≡ some (m, ws'')
  unfolding next_message
  two_turns ws ws' ws'' m e f = ground (arith, e, f)

  -- If one read gives the bytes of a final text or binary frame of 1 to 125 bytes with any mask, on
  -- an open connection between messages that has queued none, then `next` comes to its end in two
  -- turns of its loop and returns the message with the bytes unmasked, if those of a text are
  -- UTF-8; the connection is then again open, between messages, and has queued none.
  pub next_message-client_frame :
      (is_binary : Bool) (a b c d : ℕ) (bytes : Bytes) (ws : Websocket Stream) (m : Message)
      (socket socket' : Stream)
      → ws.socket ≡ some socket
      → ws.messages_in_queue ≡ []
      → ws.state_machine ≡ between
      → ws.current_message_payload ≡ []
      → ws.current_frame_payload ≡ []
      → is_empty bytes ≡ false
      → length bytes < 126
      → message_of io is_binary bytes ≡ some m
      → read socket
        ≡ (received (client_frame (if is_binary then 0x2 else 0x1) a b c d bytes), socket')
      → (ws'' : Websocket Stream) × (next_message io 2 ws ≡ some (some m, ws''))
        × (ws''.socket ≡ some socket')
        × (ws''.messages_in_queue ≡ [])
        × (ws''.state_machine ≡ between)
        × (ws''.current_message_payload ≡ [])
        × (ws''.current_frame_payload ≡ [])
  unfolding turn on_read on_queue
  next_message-client_frame is_binary a b c d bytes ws m socket socket' e queue state f g full short
        h given =
      let opened = record ws { socket = some socket' } in
      let queued = with_message is_binary m opened in
      let returned = record queued { messages_in_queue = [] } in
      let read_turn : turn io ws ≡ some (again queued) =
        ground (arith, frame_read is_binary a b c d bytes opened m state f g full short h) in
      let queue_turn : turn io queued ≡ some (returns (some m) returned) = ground arith in
      (
        returned,
        two_turns ws queued returned (some m) read_turn queue_turn,
        refl,
        refl,
        refl,
        f,
        refl,
      )
