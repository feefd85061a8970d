-- ===== src/Websocket/Connection/Frames.antt =====
-- Whole messages over src/websocket/websocket.rs: fragments, pings between them, refusals.
use rouille.Common.{
  ℕ, ◌≡◌, refl, sym, ap, ◌∙◌, Bool, true, false, Option, none, some, List, [], ◌∷◌, ◌++◌,
  if◌then◌else◌, ◌>>=◌, length, ◌+◌, ◌%◌, ◌<◌, Bytes, arith, append-nil, append_assoc,
}
use rouille.Common.Utf8.{from_utf8}
use rouille.Websocket.LowLevel.{Data, frame_start, payload}
use rouille.Websocket.LowLevel.Unmask.{collect, unmask, collect-unmask, unmask_twice}
use rouille.Websocket.Frame.{ReadWrite}
use rouille.Websocket.Connection.{
  Message, text, binary, Websocket, Flow, go_on, closed, dispatch, on_data, on_continuation,
  dispatch_text, on_element, clear,
}

-- A piece of a frame's payload as a client masks it, from an offset within the mask.
abbrev piece : ℕ → ℕ → Bytes → Data
piece mask offset bytes = record { source = unmask mask offset bytes; mask = mask; offset = offset }

collect-piece :
    (mask offset : ℕ) (bytes : Bytes) → offset < 4 → collect (piece mask offset bytes) ≡ some bytes
collect-piece mask offset bytes h =
    collect-unmask (piece mask offset bytes) h ∙ ap some (unmask_twice mask offset bytes)

-- The payload of a frame as a client masks it.
abbrev pub masked : ℕ → Bytes → Data
masked mask = piece mask 0

pub collect-masked : (mask : ℕ) (bytes : Bytes) → collect (masked mask bytes) ≡ some bytes
collect-masked mask bytes = collect-piece mask 0 bytes (omega arith)

-- The payload of a frame: its mask, and its bytes in the pieces in which reads bring them.
pub record Content : Type 0 where
  pub mask : ℕ
  pub pieces : List Bytes
  pub last_piece : Bytes

abbrev concat : List Bytes → Bytes → Bytes
concat [] last = last
concat (bytes ∷ rest) last = bytes ++ concat rest last

abbrev pub bytes_of : Content → Bytes
bytes_of c = concat c.pieces c.last_piece

abbrev pub joined : List Content → Bytes
joined [] = []
joined (c ∷ cs) = bytes_of c ++ joined cs

module _ (io : ReadWrite) where
  open io use {Stream}

  -- The elements of the payload, each with its offset within the mask.
  unfoldable on_pieces : ℕ → ℕ → List Bytes → Bytes → Websocket Stream → Option (Flow Stream)
  unfolding on_element
  on_pieces mask offset [] last ws = on_element io ws (payload (piece mask offset last) true)
  on_pieces mask offset (bytes ∷ rest) last ws =
      elim (on_element io ws (payload (piece mask offset bytes) false)) [
        | none ↦ none
        | some (closed ws' socket) ↦ some (closed ws' socket)
        | some (go_on ws') ↦ on_pieces mask ((offset + length bytes) % 4) rest last ws'
      ]

  -- The elements of one frame.
  unfoldable pub on_frame : Bool → ℕ → Content → Websocket Stream → Option (Flow Stream)
  unfolding on_element on_pieces
  on_frame fin opcode c ws =
      elim (on_element io ws (frame_start fin (length (bytes_of c)) opcode)) [
        | none ↦ none
        | some (closed ws' socket) ↦ some (closed ws' socket)
        | some (go_on ws') ↦ on_pieces c.mask 0 c.pieces c.last_piece ws'
      ]

  on_pieces_lem :
      (mask offset : ℕ) (pieces : List Bytes) (last : Bytes) (ws : Websocket Stream)
      → offset < 4
      → on_pieces mask offset pieces last ws ≡ (
          dispatch io
            (record ws { current_frame_payload = ws.current_frame_payload ++ concat pieces last })
          >>= λ flow. some (clear io flow))
  unfolding on_pieces on_element
  on_pieces_lem mask offset [] last ws h = ground (arith, collect-piece mask offset last h)
  on_pieces_lem mask offset (bytes ∷ rest) last ws h = ground (
    arith,
    collect-piece mask offset bytes h,
    append_assoc ws.current_frame_payload bytes (concat rest last),
    on_pieces_lem mask ((offset + length bytes) % 4) rest last
        (record ws { current_frame_payload = ws.current_frame_payload ++ bytes }) (omega arith),
  )

  -- However its payload comes in pieces, a frame is dispatched once and with all its bytes.
  pub on_frame_lem :
      (fin : Bool) (opcode : ℕ) (c : Content) (ws : Websocket Stream)
      → ws.current_frame_payload ≡ []
      → on_frame fin opcode c ws ≡ (
          dispatch io (record ws {
            current_frame_opcode = opcode;
            current_frame_fin = fin;
            current_frame_payload = bytes_of c;
          })
          >>= λ flow. some (clear io flow))
  unfolding on_frame on_element
  on_frame_lem fin opcode c ws e = ground (
    arith,
    on_pieces_lem c.mask 0 c.pieces c.last_piece
        (record ws { current_frame_opcode = opcode; current_frame_fin = fin }) (omega arith),
  )

  -- Fragments that are not the last one.
  unfoldable on_fragments : List Content → Websocket Stream → Option (Flow Stream)
  on_fragments [] ws = some (go_on ws)
  on_fragments (c ∷ cs) ws = elim (on_frame false 0x0 c ws) [
    | none ↦ none
    | some (closed ws' socket) ↦ some (closed ws' socket)
    | some (go_on ws') ↦ on_fragments cs ws'
  ]

  -- A message in fragments: the first one with the message's opcode, then the others, of which the
  -- last is final.
  unfoldable pub on_message :
      Bool → Content → List Content → Content → Websocket Stream → Option (Flow Stream)
  unfolding on_fragments on_frame
  on_message is_binary c cs last ws = elim (on_frame false (if is_binary then 0x2 else 0x1) c ws) [
    | none ↦ none
    | some (closed ws' socket) ↦ some (closed ws' socket)
    | some (go_on ws') ↦ elim (on_fragments cs ws') [
      | none ↦ none
      | some (closed ws'' socket) ↦ some (closed ws'' socket)
      | some (go_on ws'') ↦ on_frame true 0x0 last ws''
    ]
  ]

  fragment_lem :
      (c : Content) (ws : Websocket Stream)
      → ws.current_frame_payload ≡ []
      → on_frame false 0x0 c ws
        ≡ some (
            go_on (record ws {
              current_message_payload = ws.current_message_payload ++ bytes_of c;
              current_frame_opcode = 0;
              current_frame_fin = false;
              current_frame_payload = [];
            }))
  unfolding dispatch on_continuation
  fragment_lem c ws e = ground (arith, on_frame_lem false 0x0 c ws e)

  -- The connection in the middle of a message whose fragments so far are these bytes.
  pub record IsWithin (ws : Websocket Stream) (bytes : Bytes) (ws' : Websocket Stream)
      : Type 0 where
    pub so_far : ws'.current_message_payload ≡ bytes
    pub no_frame : ws'.current_frame_payload ≡ []
    pub same_kind : ws'.current_message_binary ≡ ws.current_message_binary
    pub same_socket : ws'.socket ≡ ws.socket
    pub same_queue : ws'.messages_in_queue ≡ ws.messages_in_queue

  fragments_lem :
      (cs : List Content) (ws : Websocket Stream)
      → ws.current_frame_payload ≡ []
      → (ws' : Websocket Stream) × (on_fragments cs ws ≡ some (go_on ws'))
        × IsWithin ws (ws.current_message_payload ++ joined cs) ws'
  unfolding on_fragments
  fragments_lem [] ws e = (
    ws,
    refl,
    record {
      so_far = sym (append-nil ws.current_message_payload);
      no_frame = e;
      same_kind = refl;
      same_socket = refl;
      same_queue = refl;
    },
  )
  fragments_lem (c ∷ cs) ws e =
      let step = fragment_lem c ws e in
      let ws₁ = record ws {
        current_message_payload = ws.current_message_payload ++ bytes_of c;
        current_frame_opcode = 0;
        current_frame_fin = false;
        current_frame_payload = [];
      } in
      let (ws', run, w) = fragments_lem cs ws₁ refl in
      (
        ws',
        ground arith,
        record {
          so_far = w.so_far ∙ append_assoc ws.current_message_payload (bytes_of c) (joined cs);
          no_frame = w.no_frame;
          same_kind = w.same_kind;
          same_socket = w.same_socket;
          same_queue = w.same_queue;
        },
      )

  abbrev pub message_of : Bool → Bytes → Option Message
  message_of true bytes = some (binary bytes)
  message_of false bytes = elim (from_utf8 bytes) [ none ↦ none | some string ↦ some (text string) ]

  last_lem :
      (c : Content) (ws : Websocket Stream) (m : Message)
      → ws.current_frame_payload ≡ []
      → message_of ws.current_message_binary (ws.current_message_payload ++ bytes_of c) ≡ some m
      → (ws' : Websocket Stream) × (on_frame true 0x0 c ws ≡ some (go_on ws'))
        × IsWithin ws [] (record ws' { messages_in_queue = ws.messages_in_queue })
        × (ws'.messages_in_queue ≡ ws.messages_in_queue ++ m ∷ [])
  unfolding dispatch on_continuation dispatch_text
  last_lem c ws m e h = (
    record ws {
      current_message_payload = [];
      current_frame_opcode = 0;
      current_frame_fin = true;
      current_frame_payload = [];
      messages_in_queue = ws.messages_in_queue ++ m ∷ [];
    },
    ground (arith, on_frame_lem true 0x0 c ws e),
    record {
      so_far = refl;
      no_frame = refl;
      same_kind = refl;
      same_socket = refl;
      same_queue = refl;
    },
    refl,
  )

  pub start_lem :
      (is_binary : Bool) (c : Content) (ws : Websocket Stream)
      → ws.current_message_payload ≡ []
      → ws.current_frame_payload ≡ []
      → (ws' : Websocket Stream) × (on_frame false (if is_binary then 0x2 else 0x1) c ws
          ≡ some (go_on ws'))
        × IsWithin (record ws { current_message_binary = is_binary }) (bytes_of c) ws'
  unfolding dispatch on_data
  start_lem is_binary c ws e f = (
    record ws {
      current_message_binary = is_binary;
      current_message_payload = bytes_of c;
      current_frame_opcode = if is_binary then 2 else 1;
      current_frame_fin = false;
      current_frame_payload = [];
    },
    start_run is_binary,
    record {
      so_far = refl;
      no_frame = refl;
      same_kind = refl;
      same_socket = refl;
      same_queue = refl;
    },
  )
    where
      start_run :
          (b : Bool)
          → on_frame false (if b then 0x2 else 0x1) c ws
            ≡ some (
                go_on (record ws {
                  current_message_binary = b;
                  current_message_payload = bytes_of c;
                  current_frame_opcode = if b then 2 else 1;
                  current_frame_fin = false;
                  current_frame_payload = [];
                }))
      start_run true = ground (arith, on_frame_lem false 0x2 c ws f)
      start_run false = ground (arith, on_frame_lem false 0x1 c ws f)

  -- Between messages, a text or binary message that comes in fragments, each of them in whatever
  -- pieces, is queued as one message with all their bytes, if those of a text are UTF-8. The socket
  -- stays, and the connection is between messages again.
  pub on_message_lem :
      (is_binary : Bool) (c : Content) (cs : List Content) (last : Content) (ws : Websocket Stream)
      (m : Message)
      → ws.current_message_payload ≡ []
      → ws.current_frame_payload ≡ []
      → message_of is_binary ((bytes_of c ++ joined cs) ++ bytes_of last) ≡ some m
      → (ws' : Websocket Stream) × (on_message is_binary c cs last ws ≡ some (go_on ws'))
        × (ws'.messages_in_queue ≡ ws.messages_in_queue ++ m ∷ [])
        × (ws'.socket ≡ ws.socket)
        × (ws'.current_message_payload ≡ [])
        × (ws'.current_frame_payload ≡ [])
  unfolding on_message
  on_message_lem is_binary c cs last ws m e f h =
      let (ws₁, run₁, w₁) = start_lem is_binary c ws e f in
      let (ws₂, run₂, w₂) = fragments_lem cs ws₁ w₁.no_frame in
      let all : ws₂.current_message_payload ≡ bytes_of c ++ joined cs =
        w₂.so_far ∙ ap (λ (t : Bytes). t ++ joined cs) w₁.so_far in
      let kind : ws₂.current_message_binary ≡ is_binary = w₂.same_kind ∙ w₁.same_kind in
      let (ws₃, run₃, w₃, queued) = last_lem last ws₂ m w₂.no_frame (rw (all, kind) h) in
      (ws₃, ground arith, ground arith, ground arith, ground arith, ground arith)
