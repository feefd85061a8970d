-- ===== src/Examples/Echo/Sending.antt =====
-- A client of examples/websocket.rs, and how the server sends a text to it.
use rouille.Common.{
  ℕ, ◌<◌, ◌≡◌, refl, ap, ◌∙◌, true, false, some, List, [], ◌∷◌, ◌++◌, length, is_empty, Bytes, Text,
  arith, append_assoc,
}
use rouille.Common.Utf8.{as_bytes, IsText}
use rouille.Websocket.Frame.{ReadWrite, received, send, frame_pieces, write_pieces}
use rouille.Websocket.Connection.{text as text_message, Websocket, send_text, send_frame}
use rouille.Websocket.Connection.WholeFrame.{client_frame, between}
use rouille.Examples.Echo.{echo}

-- A text, and the mask that the client chooses for it.
pub record Said : Type 0 where
  pub a : ℕ
  pub b : ℕ
  pub c : ℕ
  pub d : ℕ
  pub txt : Text

-- A text that fits a short frame.
pub record IsShort (said : Said) : Type 0 where
  pub is_text : IsText said.txt
  pub is_full : is_empty (as_bytes said.txt) ≡ false
  pub is_short : length (as_bytes said.txt) < 126

abbrev pub AreShort : List Said → Type 0
AreShort [] = Unit
AreShort (said ∷ later) = IsShort said × AreShort later

abbrev pub frame_of : Said → Bytes
frame_of said = client_frame 0x1 said.a said.b said.c said.d (as_bytes said.txt)

-- The unmasked final text frames with these texts.
abbrev pub echoes : List Said → Bytes
echoes [] = []
echoes (said ∷ later) =
    let rest = echoes later in
    let bytes = as_bytes said.txt in (0x81 ∷ length bytes ∷ bytes) ++ rest

frame_pieces-short :
    (bytes : Bytes)
    → length bytes < 126
    → frame_pieces bytes 0x1 ≡ some ((0x81 ∷ []) ∷ (length bytes ∷ []) ∷ bytes ∷ [])
unfolding frame_pieces
frame_pieces-short bytes short = ground arith

module _ (io : ReadWrite) where
  open io use {Stream, read, write_all, flush}

  -- A stream on which each read gives what the client has sent at once, and no bytes when that is
  -- all, and which takes all that is written.
  pub record IsStream : Type 0 where
    pub incoming : Stream → List Bytes
    pub written : Stream → Bytes
    pub reads :
        (s : Stream) (bytes : Bytes) (later : List Bytes)
        → incoming s ≡ bytes ∷ later
        → (t : Stream) × (read s ≡ (received bytes, t))
          × (incoming t ≡ later)
          × (written t ≡ written s)
    pub ends : (s : Stream) → incoming s ≡ [] → (t : Stream) × (read s ≡ (received [], t))
    pub writes :
        (bytes : Bytes) (s : Stream)
        → (t : Stream) × (write_all bytes s ≡ (true, t))
          × (incoming t ≡ incoming s)
          × (written t ≡ written s ++ bytes)
    pub flushes :
        (s : Stream)
        → (t : Stream) × (flush s ≡ (true, t)) × (incoming t ≡ incoming s) × (written t ≡ written s)

  written_all :
      (p q r : Bytes) (s a b c d : Stream)
      → write_all p s ≡ (true, a)
      → write_all q a ≡ (true, b)
      → write_all r b ≡ (true, c)
      → flush c ≡ (true, d)
      → write_pieces io (p ∷ q ∷ r ∷ []) s ≡ (true, d)
  unfolding write_pieces
  written_all p q r s a b c d wrote_p wrote_q wrote_r flushed =
      rw wrote_p (rw wrote_q (rw wrote_r flushed))

  -- An open connection between messages that has queued none.
  pub record IsIdle (ws : Websocket Stream) (socket : Stream) : Type 0 where
    pub is_open : ws.socket ≡ some socket
    pub no_queue : ws.messages_in_queue ≡ []
    pub is_between : ws.state_machine ≡ between
    pub no_message : ws.current_message_payload ≡ []
    pub no_frame : ws.current_frame_payload ≡ []

  module _ (h : IsStream) where
    send-short :
        (bytes : Bytes) (s : Stream)
        → length bytes < 126
        → (t : Stream) × (send io bytes s 0x1 ≡ some (true, t))
          × (h.incoming t ≡ h.incoming s)
          × (h.written t ≡ h.written s ++ (0x81 ∷ length bytes ∷ bytes))
    unfolding send
    send-short bytes s short =
        let (a, wrote_a, in_a, out_a) = h.writes (0x81 ∷ []) s in
        let (b, wrote_b, in_b, out_b) = h.writes (length bytes ∷ []) a in
        let (c, wrote_c, in_c, out_c) = h.writes bytes b in
        let (d, flushed, in_d, out_d) = h.flushes c in
        (
          d,
          rw (frame_pieces-short bytes short) (
              ap some (
                written_all (0x81 ∷ []) (length bytes ∷ []) bytes s a b c d wrote_a wrote_b wrote_c
                  flushed)),
          in_d ∙ in_c ∙ in_b ∙ in_a,
          out_d
              ∙ out_c
              ∙ ap (λ w. w ++ bytes) (out_b ∙ ap (λ w. w ++ length bytes ∷ []) out_a)
              ∙ append_assoc (h.written s ++ 0x81 ∷ []) (length bytes ∷ []) bytes
              ∙ append_assoc (h.written s) (0x81 ∷ []) (length bytes ∷ bytes),
        )

    pub echo-short :
        (ws : Websocket Stream) (socket : Stream) (txt : Text)
        → IsIdle ws socket
        → length (as_bytes txt) < 126
        → (ws' : Websocket Stream) × (t : Stream) × (echo io (text_message txt) ws ≡ some ws')
          × IsIdle ws' t
          × (h.incoming t ≡ h.incoming socket)
          × (h.written t ≡ h.written socket ++ (0x81 ∷ length (as_bytes txt) ∷ as_bytes txt))
    unfolding echo send_text send_frame
    echo-short ws socket txt idle short =
        let (t, went, same, more) = send-short (as_bytes txt) socket short in
        (
          record ws { socket = some t },
          t,
          rw idle.is_open (rw went refl),
          record {
            is_open = refl;
            no_queue = idle.no_queue;
            is_between = idle.is_between;
            no_message = idle.no_message;
            no_frame = idle.no_frame;
          },
          same,
          more,
        )
