-- ===== src/Examples/Echo/Frames.antt =====
-- The bytes that the server of examples/websocket.rs writes for those that it reads.
use rouille.Common.{
  ℕ, suc, ◌≡◌, refl, sym, ap, ◌∙◌, false, none, some, List, [], ◌∷◌, ◌++◌, map, length, Bytes, Text,
  arith, append_assoc, append-nil,
}
use rouille.Common.Utf8.{as_bytes, IsText, from_utf8-as_bytes}
use rouille.Websocket.Frame.{ReadWrite}
use rouille.Websocket.Connection.{
  text as text_message, Websocket, next_message, turn, on_queue, on_read,
}
use rouille.Websocket.Connection.Frames.{message_of}
use rouille.Websocket.Connection.WholeFrame.{next_message-client_frame}
use rouille.Examples.Echo.{echo, websocket_handling_thread}
use rouille.Examples.Echo.Sending.{
  Said, IsShort, AreShort, frame_of, echoes, IsStream, IsIdle, echo-short,
}

-- A round of the loop for each of them, and so many more.
abbrev pub rounds_for : List Said → ℕ → ℕ
rounds_for [] n = n
rounds_for (said ∷ later) n = suc (rounds_for later n)

module _ (io : ReadWrite) where
  open io use {Stream}

  module _ (h : IsStream io) where
    message_of-as_bytes :
        (txt : Text) → IsText txt → message_of io false (as_bytes txt) ≡ some (text_message txt)
    message_of-as_bytes txt is_text = ground (arith, from_utf8-as_bytes txt is_text)

    round :
        (n : ℕ) (ws ws' ws'' : Websocket Stream) (txt : Text)
        → next_message io 2 ws ≡ some (some (text_message txt), ws')
        → echo io (text_message txt) ws' ≡ some ws''
        → websocket_handling_thread io (suc n) 2 ws ≡ websocket_handling_thread io n 2 ws''
    unfolding websocket_handling_thread
    round n ws ws' ws'' txt e f = ground (arith, e, f)

    one_said :
        (said : Said) (later : List Bytes) (ws : Websocket Stream) (socket : Stream)
        → IsShort said
        → IsIdle io ws socket
        → h.incoming socket ≡ frame_of said ∷ later
        → (ws' : Websocket Stream) × (t : Stream) × ((n : ℕ)
            → websocket_handling_thread io (suc n) 2 ws ≡ websocket_handling_thread io n 2 ws')
          × IsIdle io ws' t
          × (h.incoming t ≡ later)
          × (h.written t
              ≡ h.written socket ++ (0x81 ∷ length (as_bytes said.txt) ∷ as_bytes said.txt))
    one_said said later ws socket short idle there =
        let (read_to, gives, rest, same) = h.reads socket (frame_of said) later there in
        let (ws1, message, open1, queue1, between1, message1, frame1) =
          next_message-client_frame io false said.a said.b said.c said.d (as_bytes said.txt) ws
            (text_message said.txt) socket read_to idle.is_open idle.no_queue idle.is_between
            idle.no_message idle.no_frame short.is_full short.is_short
            (message_of-as_bytes said.txt short.is_text) gives in
        let (ws2, t, echoed, idle2, in2, out2) =
          echo-short io h ws1 read_to said.txt
            (record {
              is_open = open1;
              no_queue = queue1;
              is_between = between1;
              no_message = message1;
              no_frame = frame1;
            })
            short.is_short in
        (
          ws2,
          t,
          λ n. round n ws ws1 ws2 said.txt message echoed,
          idle2,
          in2 ∙ rest,
          out2 ∙ ap (λ w. w ++ (0x81 ∷ length (as_bytes said.txt) ∷ as_bytes said.txt)) same,
        )

    all_said :
        (all : List Said) (ws : Websocket Stream) (socket : Stream) (n : ℕ)
        → AreShort all
        → IsIdle io ws socket
        → h.incoming socket ≡ map frame_of all
        → (ws' : Websocket Stream) × (t : Stream) × (websocket_handling_thread io
              (rounds_for all n)
              2
              ws
            ≡ websocket_handling_thread io n 2 ws')
          × IsIdle io ws' t
          × (h.incoming t ≡ [])
          × (h.written t ≡ h.written socket ++ echoes all)
    all_said [] ws socket n shorts idle there =
        (ws, socket, refl, idle, there, sym (append-nil (h.written socket)))
    all_said (said ∷ later) ws socket n (short, shorts) idle there =
        let (ws1, t1, goes_on, idle1, in1, out1) =
          one_said said (map frame_of later) ws socket short idle there in
        let (ws2, t2, arrives, idle2, in2, out2) = all_said later ws1 t1 n shorts idle1 in1 in
        let frame = 0x81 ∷ length (as_bytes said.txt) ∷ as_bytes said.txt in
        (
          ws2,
          t2,
          goes_on (rounds_for later n) ∙ arrives,
          idle2,
          in2,
          out2
              ∙ ap (λ w. w ++ echoes later) out1
              ∙ append_assoc (h.written socket) frame (echoes later),
        )

    last_round :
        (ws : Websocket Stream) (socket : Stream)
        → IsIdle io ws socket
        → h.incoming socket ≡ []
        → websocket_handling_thread io 1 2 ws ≡ some (record ws { socket = none })
    unfolding websocket_handling_thread next_message turn on_queue on_read
    last_round ws socket idle nothing_left =
        let (t, gives) = h.ends socket nothing_left in
        ground (arith, gives, idle.is_open, idle.no_queue)

    -- With a client that sends texts of 1 to 125 bytes, each in one final frame with any mask that
    -- one read gives, and then no more, on an open connection between messages that has queued
    -- none: the thread does not panic, and it ends within one round of its loop for each text and
    -- one more, of two turns of `next` each; and what it has written when it comes to its last round
    -- is one unmasked final text frame with each of the texts, in their order.
    pub websocket_handling_thread_lem :
        (all : List Said) (ws : Websocket Stream) (socket : Stream)
        → AreShort all
        → IsIdle io ws socket
        → h.incoming socket ≡ map frame_of all
        → (ws' : Websocket Stream) × (t : Stream) × (websocket_handling_thread io
              (rounds_for all 1)
              2
              ws
            ≡ websocket_handling_thread io 1 2 ws')
          × IsIdle io ws' t
          × (h.written t ≡ h.written socket ++ echoes all)
          × (websocket_handling_thread io (rounds_for all 1) 2 ws
              ≡ some (record ws' { socket = none }))
    websocket_handling_thread_lem all ws socket shorts idle there =
        let (ws', t, arrives, idle', left, wrote) = all_said all ws socket 1 shorts idle there in
        (ws', t, arrives, idle', wrote, arrives ∙ last_round ws' t idle' left)
