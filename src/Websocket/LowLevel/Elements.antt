-- ===== src/Websocket/LowLevel/Elements.antt =====
-- A loop over the iterator that `StateMachine::feed` of src/websocket/low_level.rs returns, as
-- src/websocket/websocket.rs makes it: it is left at an error, and when the iterator ends.
use rouille.Common.{
  Bool, true, false, ℕ, zero, suc, ◌+◌, ◌*◌, Option, none, some, List, [], ◌∷◌, ◌++◌, map, any,
  ◌>>=◌, length, Bytes,
}
use rouille.Websocket.LowLevel.{
  Element, frame_start, payload, error, StateMachine, ElementsIter, next,
}
use rouille.Websocket.LowLevel.Unmask.{collect}
use rouille.Websocket.LowLevel.Decoder.{Event, start, byte, end, refused}

-- The elements of the loop, in order, and the state that it leaves behind.
pub record Fed : Type 0 where
  pub elements : List Element
  pub state : StateMachine

abbrev push : Element → Option Fed → Option Fed
push e none = none
push e (some f) = some (record f { elements = e ∷ f.elements })

-- `none` is a panic, or too few rounds.
unfoldable pub elements : ℕ → ElementsIter → Option Fed
elements zero it = none
elements (suc n) it = elim (next it) [
  | none ↦ none
  | some (none, it') ↦ some (record { elements = []; state = it'.state })
  | some (some (error desc), it') ↦ some (record { elements = error desc ∷ []; state = it'.state })
  | some (some (frame_start fin len opcode), it') ↦
      push (frame_start fin len opcode) (elements n it')
  | some (some (payload d last), it') ↦ push (payload d last) (elements n it')
]

-- Enough rounds: each element takes a byte of the input, or ends a frame that has none.
abbrev pub rounds : Bytes → ℕ
rounds input = 2 * length input + 2

-- What an element tells its reader.
abbrev ended : Bool → List Event
ended true = end ∷ []
ended false = []

unfoldable pub element_events : Element → Option (List Event)
element_events (frame_start fin len opcode) = some (start fin len opcode ∷ [])
element_events (payload d last) = collect d >>= λ bs. some (map byte bs ++ ended last)
element_events (error desc) = some (refused desc ∷ [])

unfoldable pub elements_events : List Element → Option (List Event)
unfolding element_events
elements_events [] = some []
elements_events (e ∷ es) =
    element_events e >>= λ here. elements_events es >>= λ later. some (here ++ later)

is_error : Element → Bool
is_error (error desc) = true
is_error _ = false

-- Whether the loop was left at an error.
unfoldable pub refuses : List Element → Bool
unfolding is_error
refuses = any is_error
