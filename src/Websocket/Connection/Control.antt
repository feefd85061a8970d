-- ===== src/Websocket/Connection/Control.antt =====
-- Control frames in src/websocket/websocket.rs: pings and close frames.
use rouille.Common.{◌≡◌, Bool, true, Option, none, some, [], Bytes, arith, Option-cases, inl, inr}
use rouille.Websocket.Frame.{ReadWrite, send}
use rouille.Websocket.Connection.{
  Websocket, Flow, go_on, closed, dispatch, close_with, send_ignoring,
}
use rouille.Websocket.Connection.Frames.{Content, bytes_of, on_frame, on_frame_lem}

module _ (io : ReadWrite) where
  open io use {Stream}

  abbrev pub ponged : Websocket Stream → Option (Bool × Stream) → Option (Flow Stream)
  ponged ws none = none
  ponged ws (some (ok, socket)) = some (
      go_on (record ws {
        socket = some socket;
        current_frame_opcode = 0x9;
        current_frame_fin = true;
        current_frame_payload = [];
      }))

  abbrev pub echoed : Websocket Stream → Bytes → Option (Bool × Stream) → Option (Flow Stream)
  echoed ws bytes none = none
  echoed ws bytes (some (ok, socket)) = some (
      closed
        (record ws {
          socket = none;
          current_frame_opcode = 0x8;
          current_frame_fin = true;
          current_frame_payload = bytes;
        })
        socket)

  -- On an open connection between frames, and however the payload comes in pieces: a ping is answered by a pong with the same bytes, also in
  -- the middle of a fragmented message, which is not touched; a close frame is answered by a close
  -- frame with the same bytes, and the connection is closed.
  pub on_frame_control :
      (c : Content) (ws : Websocket Stream) (socket : Stream)
      → ws.socket ≡ some socket
      → ws.current_frame_payload ≡ []
      → (on_frame io true 0x9 c ws ≡ ponged ws (send io (bytes_of c) socket 0xa))
        × (on_frame io true 0x8 c ws ≡ echoed ws (bytes_of c) (send io (bytes_of c) socket 0x8))
  unfolding dispatch send_ignoring close_with
  on_frame_control c ws socket s e = (
    elim (Option-cases (send io (bytes_of c) socket 0xa)) [
      | inl panics ↦ ground (arith, on_frame_lem io true 0x9 c ws e)
      | inr (out, sent) ↦ ground (arith, on_frame_lem io true 0x9 c ws e)
    ],
    elim (Option-cases (send io (bytes_of c) socket 0x8)) [
      | inl panics ↦ ground (arith, on_frame_lem io true 0x8 c ws e)
      | inr (out, sent) ↦ ground (arith, on_frame_lem io true 0x8 c ws e)
    ],
  )
