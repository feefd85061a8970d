-- ===== src/Websocket/Connection.antt =====
-- src/websocket/websocket.rs: a connection, its messages, and the loop that reads them.
-- A result `none` is a panic. A stream that the code drops stands beside the closed connection, so
-- that what was written last can be told.
pub mod Frames
pub mod Interrupted
pub mod Control
pub mod Turns
pub mod WholeFrame
mod Tests
use rouille.Common.{
  ℕ, zero, suc, Bool, true, false, not, Option, none, some, List, [], ◌∷◌, ◌++◌, ltb, leb, ◌==◌,
  if◌then◌else◌, ◌>>=◌, length, is_empty, Bytes, Text, text as literal,
}
use rouille.Common.Utf8.{from_utf8, as_bytes}
use rouille.Websocket.LowLevel.{
  Data, Element, frame_start, payload, error, StateMachine, ElementsIter, feed,
  next as next_element, new,
}
use rouille.Websocket.LowLevel.Unmask.{collect}
use rouille.Websocket.LowLevel.Elements.{rounds}
use rouille.Websocket.Frame.{ReadWrite, ReadResult, received, interrupted, failed, send}

pub data Message : Type 0 where
  text : Text → Message
  binary : Bytes → Message

pub record Websocket (Stream : Type 0) : Type 0 where
  pub socket : Option Stream
  pub state_machine : StateMachine
  pub current_message_binary : Bool
  pub current_message_payload : Bytes
  pub current_frame_opcode : ℕ
  pub current_frame_fin : Bool
  pub current_frame_payload : Bytes
  pub messages_in_queue : List Message

-- After an element: the loop goes on, or `next` returns `None` and the socket is dropped.
pub data Flow (Stream : Type 0) : Type 0 where
  go_on : Websocket Stream → Flow Stream
  closed : Websocket Stream → Stream → Flow Stream

-- What a turn of the loop of `next` comes to.
pub data Turn (Stream : Type 0) : Type 0 where
  again : Websocket Stream → Turn Stream
  returns : Option Message → Websocket Stream → Turn Stream

-- What `send_text` and `send_binary` return: `Ok`, `IoError`, or `Closed`.
pub data SendResult : Type 0 where
  sent io_error is_closed_error : SendResult

abbrev pub send_result : Bool → SendResult
send_result true = sent
send_result false = io_error

module _ (io : ReadWrite) where
  open io use {Stream, read}

  -- `Upgrade::build` for `Sender<Websocket>`: the connection that is sent.
  abbrev pub build : Stream → Websocket Stream
  build socket = record {
    socket = some socket;
    state_machine = new;
    current_message_binary = false;
    current_message_payload = [];
    current_frame_opcode = 0;
    current_frame_fin = false;
    current_frame_payload = [];
    messages_in_queue = [];
  }

  abbrev pub queue_message : Message → Websocket Stream → Websocket Stream
  queue_message m ws = record ws { messages_in_queue = ws.messages_in_queue ++ m ∷ [] }

  -- `let _ = send(…, socket.as_mut().unwrap(), opcode)`: a failed write is ignored.
  unfoldable pub send_ignoring : Bytes → ℕ → Websocket Stream → Option (Websocket Stream)
  send_ignoring message opcode ws = ws.socket >>= λ socket.
      send io message socket opcode >>= λ sent. some (record ws { socket = some sent.1 })

  -- The same, `self.socket = None` and `return None`.
  unfoldable pub close_with : Bytes → Websocket Stream → Option (Flow Stream)
  unfolding send_ignoring
  close_with message ws = send_ignoring message 0x8 ws >>= λ ws'.
      ws'.socket >>= λ socket. some (closed (record ws' { socket = none }) socket)

  -- A complete text is queued, if it is UTF-8.
  unfoldable pub dispatch_text : Bytes → Websocket Stream → Option (Flow Stream)
  dispatch_text bytes ws = elim (from_utf8 bytes) [
    | some string ↦ some (go_on (queue_message (text string) ws))
    | none ↦ close_with (literal "1007 Invalid UTF-8 encoding") ws
  ]

  -- The branch `0x0`.
  unfoldable pub on_continuation : Websocket Stream → Option (Flow Stream)
  on_continuation ws =
      let message = ws.current_message_payload ++ ws.current_frame_payload in
      let longer = record ws { current_message_payload = message; current_frame_payload = [] } in
      let taken = record ws { current_message_payload = []; current_frame_payload = [] } in
      if ws.current_frame_fin
      then if ws.current_message_binary
        then some (go_on (queue_message (binary message) taken))
        else dispatch_text message taken
      else some (go_on longer)

  -- The branches `0x1` and `0x2`: an individual frame, or the start of a fragmented message.
  unfoldable pub on_data : Bool → Websocket Stream → Option (Flow Stream)
  on_data is_binary ws =
      let taken = record ws { current_frame_payload = [] } in
      if not (is_empty ws.current_message_payload)
      then close_with (literal "1002 Expected continuation frame") ws
      else if ws.current_frame_fin
      then if is_binary
        then some (go_on (queue_message (binary ws.current_frame_payload) taken))
        else dispatch_text ws.current_frame_payload taken
      else some (
          go_on (record ws {
            current_message_binary = is_binary;
            current_message_payload = ws.current_message_payload ++ ws.current_frame_payload;
            current_frame_payload = [];
          }))

  -- `match self.current_frame_opcode { … }` at the end of a frame
  unfoldable pub dispatch : Websocket Stream → Option (Flow Stream)
  dispatch ws =
      let opcode = ws.current_frame_opcode in
      if opcode == 0x0
      then on_continuation ws
      else if opcode == 0x1
      then on_data false ws
      else if opcode == 0x2
      then on_data true ws
      else if opcode == 0x8
      then close_with ws.current_frame_payload ws
      else if opcode == 0x9
      then (do ws' ← send_ignoring ws.current_frame_payload 0xa ws; some (go_on ws'))
      else if opcode == 0xa
      then some (go_on ws)
      else close_with (literal "Unknown opcode") ws

  -- `self.current_frame_payload.clear()`
  abbrev pub clear : Flow Stream → Flow Stream
  clear (go_on ws) = go_on (record ws { current_frame_payload = [] })
  clear (closed ws socket) = closed ws socket

  -- The body of the loop over the elements. A `debug_assert!` stands at the start of a frame.
  unfoldable pub on_element : Websocket Stream → Element → Option (Flow Stream)
  on_element ws (frame_start fin len opcode) =
      if is_empty ws.current_frame_payload
      then some (go_on (record ws { current_frame_opcode = opcode; current_frame_fin = fin }))
      else none
  on_element ws (payload d last_in_frame) = collect d >>= λ decoded.
      let longer = record ws { current_frame_payload = ws.current_frame_payload ++ decoded } in
      if last_in_frame then (dispatch longer >>= λ flow. some (clear flow)) else some (go_on longer)
  on_element ws (error desc) = close_with (as_bytes desc) ws

  -- The loop over the elements; `none` also if there are too few rounds.
  unfoldable pub on_elements : ℕ → Websocket Stream → ElementsIter → Option (Flow Stream)
  on_elements zero ws it = none
  on_elements (suc n) ws it = elim (next_element it) [
    | none ↦ none
    | some (none, it') ↦ some (go_on (record ws { state_machine = it'.state }))
    | some (some e, it') ↦ elim (on_element (record ws { state_machine = it'.state }) e) [
      | none ↦ none
      | some (closed ws' socket) ↦ some (closed ws' socket)
      | some (go_on ws') ↦ on_elements n ws' it'
    ]
  ]

  abbrev pub turn_of : Flow Stream → Turn Stream
  turn_of (go_on ws) = again ws
  turn_of (closed ws socket) = returns none ws

  -- `read(&mut buf)` and what is made of its result
  unfoldable pub on_read : Websocket Stream → ReadResult → Option (Turn Stream)
  on_read ws (received []) = some (returns none (record ws { socket = none }))
  on_read ws (received (b ∷ bs)) =
      if ltb 256 (length (b ∷ bs))
      then none
      else on_elements (rounds (b ∷ bs)) ws (feed ws.state_machine (b ∷ bs)) >>= λ flow.
          some (turn_of flow)
  on_read ws interrupted =
      on_elements (rounds []) ws (feed ws.state_machine []) >>= λ flow. some (turn_of flow)
  on_read ws failed = some (returns none (record ws { socket = none }))

  unfoldable pub on_queue : Websocket Stream → Stream → List Message → Option (Turn Stream)
  on_queue ws socket (m ∷ ms) = some (returns (some m) (record ws { messages_in_queue = ms }))
  on_queue ws socket [] =
      let (result, socket') = read socket in on_read (record ws { socket = some socket' }) result

  -- One turn of the loop of `Websocket::next`.
  unfoldable pub turn : Websocket Stream → Option (Turn Stream)
  unfolding on_queue
  turn ws = elim ws.socket [
    | none ↦ some (returns none ws)
    | some socket ↦ on_queue ws socket ws.messages_in_queue
  ]

  -- `Websocket::next`; `none` also if there are too few turns.
  unfoldable pub next_message : ℕ → Websocket Stream → Option (Option Message × Websocket Stream)
  next_message zero ws = none
  next_message (suc n) ws = elim (turn ws) [
    | none ↦ none
    | some (returns m ws') ↦ some (m, ws')
    | some (again ws') ↦ next_message n ws'
  ]

  unfoldable pub send_frame : Bytes → ℕ → Websocket Stream → Option (SendResult × Websocket Stream)
  send_frame message opcode ws = elim ws.socket [
    | none ↦ some (is_closed_error, ws)
    | some socket ↦ send io message socket opcode >>= λ out.
        some (send_result out.0, record ws { socket = some out.1 })
  ]

  unfoldable pub send_text : Text → Websocket Stream → Option (SendResult × Websocket Stream)
  unfolding send_frame
  send_text string ws = send_frame (as_bytes string) 0x1 ws

  unfoldable send_binary : Bytes → Websocket Stream → Option (SendResult × Websocket Stream)
  unfolding send_frame
  send_binary message ws = send_frame message 0x2 ws

  unfoldable is_closed : Websocket Stream → Bool
  is_closed ws = elim ws.socket [ none ↦ true | some socket ↦ false ]
