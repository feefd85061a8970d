-- ===== src/Websocket/Connection/Turns.antt =====
-- The loop of `Websocket::next` in src/websocket/websocket.rs does not panic and keeps an open
-- connection in order.
mod Dispatch
mod Places
mod Elements
use rouille.Common.{
  ℕ, ◌+◌, ◌*◌, ◌^◌, ◌≤◌, ◌<◌, ◌≡◌, refl, true, false, Option, none, some, List, [], ◌∷◌, length,
  Bytes, arith, ltb, if◌then◌else◌, ◌>>=◌, Option-cases, inl, inr,
}
use rouille.Websocket.LowLevel.{in_header, in_data, StateMachineInner, feed}
use rouille.Websocket.LowLevel.Elements.{rounds}
use rouille.Websocket.LowLevel.Refinement.{AllBytes, pending}
use rouille.Websocket.Frame.{ReadWrite, ReadResult, received, interrupted, failed}
use rouille.Websocket.Connection.{
  Message, Websocket, Flow, go_on, closed, Turn, again, returns, on_read, on_elements, turn,
  turn_of, on_queue,
}
use Elements.{elements_lem, IsOpenFlow, Rest}
pub use Elements.{IsOpen}

-- What `Read::read` may give for a buffer of 256 bytes.
abbrev pub Fits : ReadResult → Type 0
Fits (received bytes) = AllBytes bytes × (length bytes ≤ 256)
Fits interrupted = Unit {0}
Fits failed = Unit {0}

module _ (io : ReadWrite) where
  open io use {Stream, read}

  -- A turn that goes on or that returns a message leaves the connection open, with the payload of
  -- the frame in this bound; one that returns none leaves it closed.
  abbrev pub IsOpenTurn : ℕ → Turn Stream → Type 0
  IsOpenTurn limit (again ws) = IsOpen io limit ws
  IsOpenTurn limit (returns (some m) ws) = IsOpen io limit ws
  IsOpenTurn limit (returns none ws) = ws.socket ≡ none

  Flow-Turn :
      (limit : ℕ) (flow : Flow Stream)
      → IsOpenFlow io limit flow
      → IsOpenTurn limit (turn_of io flow)
  Flow-Turn limit (go_on ws) h = h
  Flow-Turn limit (closed ws socket) h = h

  grows :
      (limit limit' : ℕ) (t : Turn Stream)
      → IsOpenTurn limit t
      → limit ≤ limit'
      → IsOpenTurn limit' t
  grows limit limit' (again ws) o h = record {
    socket = o.socket;
    is_there = o.is_there;
    ready = o.ready;
    clean = o.clean;
    small = omega (arith, o.small);
  }
  grows limit limit' (returns (some m) ws) o h = record {
    socket = o.socket;
    is_there = o.is_there;
    ready = o.ready;
    clean = o.clean;
    small = omega (arith, o.small);
  }
  grows limit limit' (returns none ws) o h = o

  fed :
      (limit : ℕ) (ws : Websocket Stream) (bytes : Bytes)
      → IsOpen io limit ws
      → AllBytes bytes
      → limit + length bytes < 2 ^ 63
      → (t : Turn Stream) × ((on_elements io (rounds bytes) ws (feed ws.state_machine bytes)
            >>= λ flow. some (turn_of io flow))
          ≡ some t)
        × IsOpenTurn (limit + length bytes) t
  fed limit ws bytes o p small =
      let (flow, run, open_flow) =
        elements_lem io (rounds bytes) (limit + length bytes) ws ws.state_machine bytes o.socket
          o.is_there o.ready o.clean p (omega (arith, o.small)) small
          (enough ws.state_machine.inner) in
      (turn_of io flow, ground arith, Flow-Turn (limit + length bytes) flow open_flow)
    where
      enough : (i : StateMachineInner) → 2 * length bytes + pending i < rounds bytes
      enough in_header = omega arith
      enough (in_data mask offset r) = omega arith

  on_read_lem :
      (limit : ℕ) (ws : Websocket Stream) (result : ReadResult)
      → IsOpen io limit ws
      → Fits result
      → limit + 256 < 2 ^ 63
      → (t : Turn Stream) × (on_read io ws result ≡ some t) × IsOpenTurn (limit + 256) t
  unfolding on_read
  on_read_lem limit ws failed o f small = (returns none (record ws { socket = none }), refl, refl)
  on_read_lem limit ws (received []) o f small =
      (returns none (record ws { socket = none }), refl, refl)
  on_read_lem limit ws interrupted o f small =
      let (t, run, open_turn) = fed limit ws [] o tt (omega arith) in
      (t, run, grows (limit + 0) (limit + 256) t open_turn (omega arith))
  on_read_lem limit ws (received (b ∷ bs)) o (p, fits) small =
      let (t, run, open_turn) = fed limit ws (b ∷ bs) o p (omega arith) in
      (
        t,
        ground (arith, run),
        grows (limit + length (b ∷ bs)) (limit + 256) t open_turn (omega arith),
      )

  on_queue_lem :
      (limit : ℕ) (ws : Websocket Stream) (socket : Stream) (queue : List Message)
      → IsOpen io limit ws
      → Fits (read socket).0
      → limit + 256 < 2 ^ 63
      → (t : Turn Stream) × (on_queue io ws socket queue ≡ some t) × IsOpenTurn (limit + 256) t
  unfolding on_queue
  on_queue_lem limit ws socket (m ∷ ms) o f small = (
    returns (some m) (record ws { messages_in_queue = ms }),
    refl,
    record {
      socket = o.socket;
      is_there = o.is_there;
      ready = o.ready;
      clean = o.clean;
      small = omega (arith, o.small);
    },
  )
  on_queue_lem limit ws socket [] o f small =
      on_read_lem limit (record ws { socket = some (read socket).1 }) (read socket).0
        (record {
          socket = (read socket).1;
          is_there = refl;
          ready = o.ready;
          clean = o.clean;
          small = o.small;
        })
        f small

  -- On an open connection whose frame so far has at most `limit` bytes, with a stream whose next
  -- read gives at most the 256 bytes of the buffer, a turn of the loop of `next` does not panic. If
  -- it goes on or returns a message, the connection is open, in order, and has at most 256 bytes more
  -- of its frame; if it returns none, the stream has been dropped.
  pub turn-IsOpen :
      (limit : ℕ) (ws : Websocket Stream) (socket : Stream)
      → ws.socket ≡ some socket
      → IsOpen io limit ws
      → Fits (read socket).0
      → limit + 256 < 2 ^ 63
      → (t : Turn Stream) × (turn io ws ≡ some t) × IsOpenTurn (limit + 256) t
  unfolding turn
  turn-IsOpen limit ws socket e o f small =
      let (t, run, open_turn) = on_queue_lem limit ws socket ws.messages_in_queue o f small in
      (t, ground arith, open_turn)
