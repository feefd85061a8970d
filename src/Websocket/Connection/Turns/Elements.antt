-- ===== src/Websocket/Connection/Turns/Elements.antt =====
-- The loop over the elements in src/websocket/websocket.rs.
use rouille.Common.{
  ℕ, zero, suc, ◌+◌, ◌^◌, ◌≤◌, ◌<◌, ◌≡◌, refl, ◌∙◌, true, false, none, some, [], ◌∷◌, ◌++◌, length,
  length-append, Bytes, arith,
}
use rouille.Common.Utf8.{as_bytes}
use rouille.Websocket.LowLevel.{
  Element, frame_start, payload, error, StateMachineInner, StateMachine, ElementsIter, feed, next,
}
use rouille.Websocket.LowLevel.Unmask.{unmask, collect-unmask, length-unmask}
use rouille.Websocket.LowLevel.Refinement.{
  AllBytes, IsReady, Goes, size, work, NextStep, waits, fails, yields, next-NextStep,
}
use rouille.Websocket.Frame.{ReadWrite}
use rouille.Websocket.Connection.{Websocket, Flow, go_on, closed, on_element, on_elements, clear}
use rouille.Websocket.Connection.Turns.Dispatch.{Kept, close_with-closed, dispatch-Returns}
use rouille.Websocket.Connection.Turns.Places.{
  Clean, Clean-nil, Goes-payload, Goes-frame_start, Goes-error, Stays-Clean,
}

module _ (io : ReadWrite) where
  open io use {Stream}

  -- A stream is there, and the decoder is at the place that the payload of the frame, of at most so
  -- many bytes, shows.
  pub record IsOpen (limit : ℕ) (ws : Websocket Stream) : Type 0 where
    pub socket : Stream
    pub is_there : ws.socket ≡ some socket
    pub ready : IsReady ws.state_machine
    pub clean : Clean ws.state_machine.inner ws.current_frame_payload
    pub small : length ws.current_frame_payload ≤ limit

  abbrev pub IsOpenFlow : ℕ → Flow Stream → Type 0
  IsOpenFlow limit (go_on ws) = IsOpen limit ws
  IsOpenFlow limit (closed ws socket) = ws.socket ≡ none

  -- The same, with the decoder in this state.
  abbrev IsStep : StateMachine → ℕ → Flow Stream → Type 0
  IsStep machine limit (go_on ws) = (ws.state_machine ≡ machine) × IsOpen limit ws
  IsStep machine limit (closed ws socket) = ws.socket ≡ none

  cleared :
      (limit : ℕ) (machine : StateMachine) (flow : Flow Stream)
      → IsReady machine
      → Kept io machine flow
      → IsStep machine limit (clear io flow)
  cleared limit machine (closed ws socket) ready kept = kept
  cleared limit machine (go_on ws) ready (socket, e, m) = (
    m,
    record {
      socket = socket;
      is_there = e;
      ready = rw m ready;
      clean = Clean-nil ws.state_machine.inner [] refl;
      small = omega arith;
    },
  )

  -- One element between two states of the decoder, in a frame that is not too long.
  element_lem :
      (e : Element) (inner : StateMachineInner) (ws : Websocket Stream) (socket : Stream)
      → ws.socket ≡ some socket
      → IsReady ws.state_machine
      → Clean inner ws.current_frame_payload
      → Goes inner e ws.state_machine.inner
      → length ws.current_frame_payload + size e < 2 ^ 63
      → (flow : Flow Stream) × (on_element io ws e ≡ some flow)
        × IsStep ws.state_machine (length ws.current_frame_payload + size e) flow
  unfolding on_element
  element_lem (frame_start fin len opcode) inner ws socket s ready clean goes small =
      let nothing =
        Goes-frame_start inner ws.state_machine.inner fin len opcode ws.current_frame_payload goes
          clean in
      (
        go_on (record ws { current_frame_opcode = opcode; current_frame_fin = fin }),
        ground arith,
        (
          refl,
          record {
            socket = socket;
            is_there = s;
            ready = ready;
            clean = Clean-nil ws.state_machine.inner ws.current_frame_payload nothing;
            small = omega arith;
          },
        ),
      )
  element_lem (payload d false) inner ws socket s ready clean goes small =
      let (o, stays) = Goes-payload inner ws.state_machine.inner d false goes in
      let decoded = unmask d.mask d.offset d.source in
      let bytes = ws.current_frame_payload ++ decoded in
      (
        go_on (record ws { current_frame_payload = bytes }),
        ground (arith, collect-unmask d o),
        (
          refl,
          record {
            socket = socket;
            is_there = s;
            ready = ready;
            clean = Stays-Clean ws.state_machine.inner bytes stays;
            small = omega (
              arith,
              length-append ws.current_frame_payload decoded,
              length-unmask d.mask d.offset d.source,
            );
          },
        ),
      )
  element_lem (payload d true) inner ws socket s ready clean goes small =
      let (o, stays) = Goes-payload inner ws.state_machine.inner d true goes in
      let decoded = unmask d.mask d.offset d.source in
      let longer = record ws { current_frame_payload = ws.current_frame_payload ++ decoded } in
      let bound : length longer.current_frame_payload < 2 ^ 63 = omega (
        arith,
        length-append ws.current_frame_payload decoded,
        length-unmask d.mask d.offset d.source,
      ) in
      let (flow, dispatched, kept) = dispatch-Returns io longer socket s bound in
      (
        clear io flow,
        ground (arith, collect-unmask d o),
        cleared _ ws.state_machine flow ready kept,
      )
  element_lem (error desc) inner ws socket s ready clean goes small =
      absurd (Goes-error inner ws.state_machine.inner desc goes)

  module _ (n : ℕ) (ws : Websocket Stream) (it it' : ElementsIter) where
    ends :
        next it ≡ some (none, it')
        → on_elements io (suc n) ws it ≡ some (go_on (record ws { state_machine = it'.state }))
    unfolding on_elements
    ends e = ground arith

    closes :
        (el : Element) (ws' : Websocket Stream) (last : Stream)
        → next it ≡ some (some el, it')
        → on_element io (record ws { state_machine = it'.state }) el ≡ some (closed ws' last)
        → on_elements io (suc n) ws it ≡ some (closed ws' last)
    unfolding on_elements
    closes el ws' last e f = ground arith

    continues :
        (el : Element) (ws' : Websocket Stream)
        → next it ≡ some (some el, it')
        → on_element io (record ws { state_machine = it'.state }) el ≡ some (go_on ws')
        → on_elements io (suc n) ws it ≡ on_elements io n ws' it'
    unfolding on_elements
    continues el ws' e f = ground arith

  -- Enough rounds for the elements of the input.
  abbrev pub Rest : ℕ → ℕ → Type 0
  Rest n limit =
      (ws : Websocket Stream) (machine : StateMachine) (input : Bytes) (socket : Stream)
      → ws.socket ≡ some socket
      → IsReady machine
      → Clean machine.inner ws.current_frame_payload
      → AllBytes input
      → length ws.current_frame_payload + length input ≤ limit
      → limit < 2 ^ 63
      → work machine input < n
      → (flow : Flow Stream) × (on_elements io n ws (feed machine input) ≡ some flow)
        × IsOpenFlow limit flow

  pub elements_lem : (n limit : ℕ) → Rest n limit
  unfolding on_elements
  elements_lem zero limit ws machine input socket s ready clean p fits small h =
      absurd (omega arith)
  elements_lem (suc n) limit ws machine [] socket s ready clean p fits small h = (
    go_on (record ws { state_machine = machine }),
    unfold next in refl,
    record { socket = socket; is_there = s; ready = ready; clean = clean; small = omega arith },
  )
  elements_lem (suc n) limit ws machine (x ∷ xs) socket s ready clean p fits small h =
      go (next-NextStep machine.inner machine.buffer (x ∷ xs) ready (λ e. cc) p)
        (elements_lem n limit)
    where
      behind :
          (el : Element) (s' : StateMachine) (left : Bytes) (flow : Flow Stream)
          → next (feed machine (x ∷ xs)) ≡ some (some el, feed s' left)
          → on_element io (record ws { state_machine = s' }) el ≡ some flow
          → IsStep s' (length ws.current_frame_payload + size el) flow
          → Rest n limit
          → AllBytes left
          → IsReady s'
          → length ws.current_frame_payload + size el + length left ≤ limit
          → work s' left < n
          → (flow : Flow Stream) × (on_elements io (suc n) ws (feed machine (x ∷ xs)) ≡ some flow)
            × IsOpenFlow limit flow
      behind el s' left (closed ws' last) e done step rest p' ready' k less = (
        closed ws' last,
        closes n ws (feed machine (x ∷ xs)) (feed s' left) el ws' last e done,
        step,
      )
      behind el s' left (go_on ws') e done (m, o) rest p' ready' k less =
          let (flow, run, open_flow) =
            rest ws' s' left o.socket o.is_there ready' (rw (← m) o.clean) p'
              (omega (arith, o.small)) small less in
          (
            flow,
            continues n ws (feed machine (x ∷ xs)) (feed s' left) el ws' e done ∙ run,
            open_flow,
          )

      go :
          NextStep machine (x ∷ xs)
          → Rest n limit
          → (flow : Flow Stream) × (on_elements io (suc n) ws (feed machine (x ∷ xs)) ≡ some flow)
            × IsOpenFlow limit flow
      go (waits s' e ready' a v same) rest = (
        go_on (record ws { state_machine = s' }),
        ends n ws (feed machine (x ∷ xs)) (feed s' []) e,
        record {
          socket = socket;
          is_there = s;
          ready = ready';
          clean = rw same clean;
          small = omega arith;
        },
      )
      go (fails desc e a v short) rest =
          let (ws', last, closing, gone) =
            close_with-closed io (as_bytes desc) (record ws { state_machine = machine }) socket s
              (omega arith) in
          (
            closed ws' last,
            closes n ws (feed machine (x ∷ xs)) (feed machine (x ∷ xs)) (error desc) ws' last e
                (unfold on_element in closing),
            gone,
          )
      go (yields el s' left es e ne here ready' p' a v less goes fits') rest =
          let (flow, done, step) =
            element_lem el machine.inner (record ws { state_machine = s' }) socket s ready' clean
              goes (omega arith) in
          behind el s' left flow e done step rest p' ready' (omega arith) (omega arith)
