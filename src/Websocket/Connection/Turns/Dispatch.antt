-- ===== src/Websocket/Connection/Turns/Dispatch.antt =====
-- The end of a frame in src/websocket/websocket.rs: each branch of the `match` on the opcode
-- returns, and keeps the stream or drops it.
use rouille.Common.{
  ℕ, ◌^◌, ◌≤◌, ◌<◌, ◌≡◌, refl, Bool, true, false, not, Option, none, some, ◌==◌, is_empty,
  if◌then◌else◌, ◌>>=◌, length, Bytes, text as literal, arith, Option-cases, inl, inr,
}
use rouille.Common.Utf8.{from_utf8}
use rouille.Websocket.LowLevel.{StateMachine}
use rouille.Websocket.Frame.{ReadWrite, frame_pieces, send}
use rouille.Websocket.Connection.{
  Websocket, Flow, go_on, closed, send_ignoring, close_with, dispatch_text, on_continuation,
  on_data, dispatch, queue_message, text,
}

bind_some :
    {A B : Type 0} (o : Option A) (a : A) (f : A → B)
    → o ≡ some a
    → (b : B) × ((o >>= λ x. some (f x)) ≡ some b)
bind_some o a f e = (f a, rw e refl)

module _ (io : ReadWrite) where
  open io use {Stream}

  send_total :
      (bytes : Bytes) (socket : Stream) (opcode : ℕ)
      → length bytes < 2 ^ 63
      → opcode ≤ 15
      → (out : Bool × Stream) × (send io bytes socket opcode ≡ some out)
  unfolding send frame_pieces
  send_total bytes socket opcode h o = elim (Option-cases (frame_pieces bytes opcode)) [
    | inl panics ↦ absurd (ground arith)
    | inr (pieces, made) ↦ bind_some (frame_pieces bytes opcode) pieces _ made
  ]

  -- The decoder is as before and the stream is there, or the stream has been dropped.
  abbrev pub Kept : StateMachine → Flow Stream → Type 0
  Kept machine (go_on ws) =
      (socket : Stream) × (ws.socket ≡ some socket) × (ws.state_machine ≡ machine)
  Kept machine (closed ws socket) = ws.socket ≡ none

  -- No panic.
  abbrev Returns : StateMachine → Option (Flow Stream) → Type 0
  Returns machine r = (flow : Flow Stream) × (r ≡ some flow) × Kept machine flow

  Returns-if :
      (machine : StateMachine) (test : Bool) (r r' : Option (Flow Stream))
      → Returns machine r
      → Returns machine r'
      → Returns machine (if test then r else r')
  Returns-if machine true r r' h h' = h
  Returns-if machine false r r' h h' = h'

  pub close_with-closed :
      (message : Bytes) (ws : Websocket Stream) (socket : Stream)
      → ws.socket ≡ some socket
      → length message < 2 ^ 63
      → (ws' : Websocket Stream) × (last : Stream) × (close_with io message ws
          ≡ some (closed ws' last))
        × (ws'.socket ≡ none)
  unfolding close_with send_ignoring
  close_with-closed message ws socket is_open h =
      let (out, sent) = send_total message socket 0x8 h (omega arith) in
      (record ws { socket = none }, out.1, ground arith, refl)

  close_with-Returns :
      (message : Bytes) (ws : Websocket Stream) (socket : Stream)
      → ws.socket ≡ some socket
      → length message < 2 ^ 63
      → Returns ws.state_machine (close_with io message ws)
  close_with-Returns message ws socket is_open h =
      let (ws', last, closes, gone) = close_with-closed message ws socket is_open h in
      (closed ws' last, closes, gone)

  pong-Returns :
      (ws : Websocket Stream) (socket : Stream)
      → ws.socket ≡ some socket
      → length ws.current_frame_payload < 2 ^ 63
      → Returns ws.state_machine
          (send_ignoring io ws.current_frame_payload 0xa ws >>= λ ws'. some (go_on ws'))
  unfolding send_ignoring
  pong-Returns ws socket is_open h =
      let (out, sent) = send_total ws.current_frame_payload socket 0xa h (omega arith) in
      (go_on (record ws { socket = some out.1 }), ground arith, (out.1, refl, refl))

  dispatch_text-Returns :
      (bytes : Bytes) (ws : Websocket Stream) (socket : Stream)
      → ws.socket ≡ some socket
      → Returns ws.state_machine (dispatch_text io bytes ws)
  unfolding dispatch_text literal
  dispatch_text-Returns bytes ws socket e = elim (Option-cases (from_utf8 bytes)) [
    | inl bad ↦
        let (flow, closes, kept) =
          close_with-Returns (literal "1007 Invalid UTF-8 encoding") ws socket e (omega arith) in
        (flow, ground arith, kept)
    | inr (string, good) ↦
        (go_on (queue_message io (text string) ws), ground arith, (socket, e, refl))
  ]

  on_continuation-Returns :
      (ws : Websocket Stream) (socket : Stream)
      → ws.socket ≡ some socket
      → Returns ws.state_machine (on_continuation io ws)
  unfolding on_continuation
  on_continuation-Returns ws socket e =
      Returns-if _ ws.current_frame_fin _ _
        (Returns-if _ ws.current_message_binary _ _ (_, refl, (socket, e, refl))
          (dispatch_text-Returns _ _ socket e))
        (_, refl, (socket, e, refl))

  on_data-Returns :
      (is_binary : Bool) (ws : Websocket Stream) (socket : Stream)
      → ws.socket ≡ some socket
      → Returns ws.state_machine (on_data io is_binary ws)
  unfolding on_data literal
  on_data-Returns is_binary ws socket e =
      Returns-if _ (not (is_empty ws.current_message_payload)) _ _
        (close_with-Returns _ ws socket e (omega arith))
        (Returns-if _ ws.current_frame_fin _ _
          (Returns-if _ is_binary _ _ (_, refl, (socket, e, refl))
            (dispatch_text-Returns _ _ socket e))
          (_, refl, (socket, e, refl)))

  pub dispatch-Returns :
      (ws : Websocket Stream) (socket : Stream)
      → ws.socket ≡ some socket
      → length ws.current_frame_payload < 2 ^ 63
      → Returns ws.state_machine (dispatch io ws)
  unfolding dispatch literal
  dispatch-Returns ws socket e small =
      let opcode = ws.current_frame_opcode in
      Returns-if _ (opcode == 0x0) _ _ (on_continuation-Returns ws socket e) (
        Returns-if _ (opcode == 0x1) _ _ (on_data-Returns false ws socket e) (
          Returns-if _ (opcode == 0x2) _ _ (on_data-Returns true ws socket e) (
            Returns-if _ (opcode == 0x8) _ _ (close_with-Returns _ ws socket e small) (
              Returns-if _ (opcode == 0x9) _ _ (pong-Returns ws socket e small) (
                Returns-if _ (opcode == 0xa) _ _ (_, refl, (socket, e, refl))
                  (close_with-Returns _ ws socket e (omega arith)))))))
