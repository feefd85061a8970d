-- ===== src/Websocket/Connection/Tests.antt =====
-- A connection that the theorems on src/websocket/websocket.rs are applied to.
use rouille.Common.{
  ◌≡◌, ◌≢◌, ◌+◌, refl, true, false, none, some, ℕ, List, [], ◌∷◌, ◌++◌, Bytes, arith,
  text as literal,
}
use rouille.Common.Utf8.{from_utf8}
use rouille.Websocket.LowLevel.{new}
use rouille.Websocket.Frame.{send, ReadWrite, ReadResult, received, interrupted as no_bytes}
use rouille.Websocket.Connection.WholeFrame.{client_frame, next_message-client_frame}
use rouille.Websocket.Connection.{
  next_message, text, binary, Websocket, Turn, go_on, closed, build, turn,
}
use rouille.Websocket.Connection.Frames.{Content, on_frame, on_message, on_message_lem}
use rouille.Websocket.Connection.Control.{ponged, echoed, on_frame_control}
use rouille.Websocket.Connection.Interrupted.{interrupted, interrupted-close_with}
use rouille.Websocket.LowLevel.Decoder.{header_of}
use rouille.Websocket.Connection.Turns.{IsOpen, IsOpenTurn, turn-IsOpen}

-- A stream that keeps what is written and has nothing to read.
abbrev memory : ReadWrite
memory = record {
  Stream = List Bytes;
  read = λ s. (no_bytes, s);
  write_all = λ bytes s. (true, s ++ bytes ∷ []);
  flush = λ s. (true, s);
}

abbrev opened : Websocket (List Bytes)
opened = build memory []

abbrev in_two_pieces : Content
in_two_pieces = record { mask = 0x37fa213d; pieces = (1 ∷ []) ∷ []; last_piece = 7 ∷ [] }

abbrev in_one : ℕ → Bytes → Content
in_one mask bytes = record { mask = mask; pieces = []; last_piece = bytes }

on_message_lem_example :
    (ws' : Websocket (List Bytes)) × (on_message memory true in_two_pieces
        (in_one 0 (2 ∷ []) ∷ [])
        (in_one 5 (3 ∷ []))
        opened
      ≡ some (go_on ws'))
    × (ws'.messages_in_queue ≡ binary (1 ∷ 7 ∷ 2 ∷ 3 ∷ []) ∷ [])
    × (ws'.socket ≡ some [])
    × (ws'.current_message_payload ≡ [])
    × (ws'.current_frame_payload ≡ [])
on_message_lem_example =
    on_message_lem memory true in_two_pieces (in_one 0 (2 ∷ []) ∷ []) (in_one 5 (3 ∷ [])) opened
      (binary (1 ∷ 7 ∷ 2 ∷ 3 ∷ [])) refl refl refl

two_ne_nil : ◌≢◌ {A = Bytes} (1 ∷ 7 ∷ []) []
two_ne_nil e = cc

interrupted-close_with_example :
    (ws' : Websocket (List Bytes)) × (interrupted memory false in_two_pieces true true
        (in_one 0 (2 ∷ []))
        opened
      ≡ some (
          closed
            (record ws' { socket = none })
            ((0x88 ∷ []) ∷ (32 ∷ []) ∷ literal "1002 Expected continuation frame" ∷ [])))
    × (ws'.messages_in_queue ≡ [])
unfolding literal send
interrupted-close_with_example =
    interrupted-close_with memory false true true in_two_pieces (in_one 0 (2 ∷ [])) opened [] refl
      refl refl two_ne_nil

on_frame_control_example :
    (on_frame memory true 0x9 in_two_pieces opened
      ≡ ponged memory opened (send memory (1 ∷ 7 ∷ []) [] 0xa))
    × (on_frame memory true 0x8 in_two_pieces opened
        ≡ echoed memory opened (1 ∷ 7 ∷ []) (send memory (1 ∷ 7 ∷ []) [] 0x8))
on_frame_control_example = on_frame_control memory in_two_pieces opened [] refl refl

opened-IsOpen : IsOpen memory 0 opened
unfolding header_of
opened-IsOpen = record {
  socket = [];
  is_there = refl;
  ready = (refl, tt);
  clean = refl;
  small = omega arith;
}

turn-IsOpen_example :
    (t : Turn (List Bytes)) × (turn memory opened ≡ some t) × IsOpenTurn memory (0 + 256) t
turn-IsOpen_example = turn-IsOpen memory 0 opened [] refl opened-IsOpen tt (omega arith)

-- A stream of which these are read one by one.
abbrev script : ReadWrite
script = record {
  Stream = List Bytes;
  read = next_read;
  write_all = λ bytes s. (true, s);
  flush = λ s. (true, s);
}
  where
    next_read : List Bytes → ReadResult × List Bytes
    next_read [] = (no_bytes, [])
    next_read (bytes ∷ later) = (received bytes, later)

abbrev hello : Bytes
hello = literal "Hello"

abbrev scripted : Websocket (List Bytes)
scripted = build script (client_frame 0x1 0x37 0xfa 0x21 0x3d hello ∷ [])

next_message-client_frame_example :
    (ws'' : Websocket (List Bytes)) × (next_message script 2 scripted
      ≡ some (some (text hello), ws''))
    × (ws''.socket ≡ some [])
    × (ws''.messages_in_queue ≡ [])
    × (ws''.state_machine ≡ new)
    × (ws''.current_message_payload ≡ [])
    × (ws''.current_frame_payload ≡ [])
unfolding literal from_utf8
next_message-client_frame_example =
    next_message-client_frame script false 0x37 0xfa 0x21 0x3d hello scripted (text hello)
      (client_frame 0x1 0x37 0xfa 0x21 0x3d hello ∷ []) [] refl refl refl refl refl refl
      (omega arith) refl refl
