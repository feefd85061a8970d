-- ===== src/Websocket/Connection/Interrupted.antt =====
-- A frame with a message's opcode that comes in the middle of a fragmented message, in
-- src/websocket/websocket.rs.
use rouille.Common.{
  ℕ, Option-cases, inl, inr, ◌≡◌, ◌≢◌, refl, ap, ◌∙◌, Bool, true, false, Option, none, some, List,
  [], ◌∷◌, ◌++◌, if◌then◌else◌, ◌>>=◌, is_empty, Bytes, arith, text as literal,
}
use rouille.Websocket.Frame.{ReadWrite, send}
use rouille.Websocket.Connection.{
  Message, Websocket, Flow, go_on, closed, dispatch, on_data, dispatch_text, close_with, clear,
  send_ignoring,
}
use rouille.Websocket.Connection.Frames.{
  Content, bytes_of, on_frame, on_frame_lem, start_lem, message_of,
}

is_empty-ne : (bytes : Bytes) → bytes ≢ [] → is_empty bytes ≡ false
is_empty-ne [] ne = absurd (ne refl)
is_empty-ne (b ∷ bs) ne = refl

module _ (io : ReadWrite) where
  open io use {Stream}

  abbrev opcode_of : Bool → ℕ
  opcode_of is_binary = if is_binary then 0x2 else 0x1

  -- The first fragment of a message, and another frame with a message's opcode.
  unfoldable pub interrupted :
      Bool → Content → Bool → Bool → Content → Websocket Stream → Option (Flow Stream)
  interrupted first c second fin c' ws = elim (on_frame io false (opcode_of first) c ws) [
    | none ↦ none
    | some (closed ws' socket) ↦ some (closed ws' socket)
    | some (go_on ws') ↦ on_frame io fin (opcode_of second) c' ws'
  ]

  refused_lem :
      (is_binary fin : Bool) (c : Content) (ws : Websocket Stream)
      → is_empty ws.current_message_payload ≡ false
      → ws.current_frame_payload ≡ []
      → on_frame io fin (opcode_of is_binary) c ws ≡ (
          close_with io (literal "1002 Expected continuation frame") (record ws {
            current_frame_opcode = opcode_of is_binary;
            current_frame_fin = fin;
            current_frame_payload = bytes_of c;
          })
          >>= λ flow. some (clear io flow))
  unfolding dispatch on_data
  refused_lem true fin c ws e f = ground (arith, on_frame_lem io fin 0x2 c ws f)
  refused_lem false fin c ws e f = ground (arith, on_frame_lem io fin 0x1 c ws f)

  -- The end of a connection, after a write of which these are the result and the stream.
  abbrev ended : Websocket Stream → Option (Bool × Stream) → Option (Flow Stream)
  ended ws none = none
  ended ws (some (ok, socket)) = some (closed (record ws { socket = none }) socket)

  close_with-ended :
      (message : Bytes) (ws : Websocket Stream) (socket : Stream)
      → ws.socket ≡ some socket
      → (close_with io message ws >>= λ flow. some (clear io flow))
        ≡ ended ws (send io message socket 0x8)
  unfolding close_with send_ignoring
  close_with-ended message ws socket e = elim (Option-cases (send io message socket 0x8)) [
    | inl panics ↦ ground arith
    | inr (out, sent) ↦ ground arith
  ]

  -- On an open connection between messages, however the payloads come in pieces: if the first
  -- fragment of a message had bytes, another frame of the opcode of a text or of a binary message
  -- makes `send` write a frame of the opcode 8 on the socket, whose payload is the text
  -- `1002 Expected continuation frame`, and the connection is then without a socket.
  pub interrupted-close_with :
      (first second fin : Bool) (c c' : Content) (ws : Websocket Stream) (socket : Stream)
      → ws.socket ≡ some socket
      → ws.current_message_payload ≡ []
      → ws.current_frame_payload ≡ []
      → bytes_of c ≢ []
      → (ws' : Websocket Stream) × (interrupted first c second fin c' ws
          ≡ ended ws' (send io (literal "1002 Expected continuation frame") socket 0x8))
        × (ws'.messages_in_queue ≡ ws.messages_in_queue)
  unfolding interrupted
  interrupted-close_with first second fin c c' ws socket s e f ne =
      let (ws₁, run, w) = start_lem io first c ws e f in
      let full : is_empty ws₁.current_message_payload ≡ false =
        rw w.so_far (is_empty-ne (bytes_of c) ne) in
      let refused = refused_lem second fin c' ws₁ full w.no_frame in
      let ws₂ = record ws₁ {
        current_frame_opcode = opcode_of second;
        current_frame_fin = fin;
        current_frame_payload = bytes_of c';
      } in
      let ending =
        close_with-ended (literal "1002 Expected continuation frame") ws₂ socket
          (w.same_socket ∙ s) in
      (ws₂, ground arith, w.same_queue)

  single_lem :
      (is_binary : Bool) (c : Content) (ws : Websocket Stream) (m : Message)
      → ws.current_message_payload ≡ []
      → ws.current_frame_payload ≡ []
      → message_of io is_binary (bytes_of c) ≡ some m
      → (ws' : Websocket Stream) × (on_frame io true (opcode_of is_binary) c ws ≡ some (go_on ws'))
        × (ws'.messages_in_queue ≡ ws.messages_in_queue ++ m ∷ [])
        × (ws'.current_message_payload ≡ [])
  unfolding dispatch on_data dispatch_text
  single_lem true c ws m e f h = (
    record ws {
      current_frame_opcode = 2;
      current_frame_fin = true;
      current_frame_payload = [];
      messages_in_queue = ws.messages_in_queue ++ m ∷ [];
    },
    ground (arith, on_frame_lem io true 0x2 c ws f),
    refl,
    e,
  )
  single_lem false c ws m e f h = (
    record ws {
      current_frame_opcode = 1;
      current_frame_fin = true;
      current_frame_payload = [];
      messages_in_queue = ws.messages_in_queue ++ m ∷ [];
    },
    ground (arith, on_frame_lem io true 0x1 c ws f),
    refl,
    e,
  )

  -- If the first fragment was empty, the second frame is taken for a message of its own: a final
  -- one is queued, and the message that had begun is forgotten.
  pub interrupted_empty :
      (first second : Bool) (c c' : Content) (ws : Websocket Stream) (m : Message)
      → bytes_of c ≡ []
      → ws.current_message_payload ≡ []
      → ws.current_frame_payload ≡ []
      → message_of io second (bytes_of c') ≡ some m
      → (ws' : Websocket Stream) × (interrupted first c second true c' ws ≡ some (go_on ws'))
        × (ws'.messages_in_queue ≡ ws.messages_in_queue ++ m ∷ [])
        × (ws'.current_message_payload ≡ [])
  unfolding interrupted
  interrupted_empty first second c c' ws m none_there e f h =
      let (ws₁, run, w) = start_lem io first c ws e f in
      let (ws₂, run₂, queued, over) =
        single_lem second c' ws₁ m (w.so_far ∙ none_there) w.no_frame h in
      (ws₂, ground arith, queued ∙ ap (λ (q : List Message). q ++ m ∷ []) w.same_queue, over)
