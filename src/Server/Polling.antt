-- ===== src/Server/Polling.antt =====
-- The loops of `Server` in src/lib.rs that take requests from tiny_http and process them.
pub mod Threads
use rouille.Common.{
  ◌≡◌, refl, sym, ap, ◌∙◌, Bool, true, false, List, [], ◌∷◌, ◌++◌, if◌then◌else◌, Bool-cases, inl,
  inr,
}

-- `try_recv` and `recv_timeout`: `Ok(Some(request))`, `Ok(None)`, `Err`.
pub data Received (R : Type 0) : Type 0 where
  request : R → Received R
  nothing failure : Received R

-- A turn of the thread of `stoppable`: whether `rx.try_recv()` gives a message, and what the calls
-- of `recv_timeout` behind it give.
pub record Turn (R : Type 0) : Type 0 where
  pub message : Bool
  pub received : List (Received R)

-- What `process` does to the executor.
module _ {R S : Type 0} (process : R → S → S) where
  unfoldable pub run : List R → S → S
  run [] s = s
  run (r ∷ incoming_requests) s = run incoming_requests (process r s)

  -- `poll`, with what the calls of `try_recv` give.
  unfoldable pub poll : List (Received R) → S → S
  poll (request r ∷ rs) s = poll rs (process r s)
  poll (nothing ∷ rs) s = s
  poll (failure ∷ rs) s = s
  poll [] s = s

  -- `poll_timeout`, with what the calls of `recv_timeout` give.
  unfoldable pub poll_timeout : List (Received R) → S → S
  poll_timeout (request r ∷ rs) s = poll_timeout rs (process r s)
  poll_timeout (nothing ∷ rs) s = s
  poll_timeout (failure ∷ rs) s = s
  poll_timeout [] s = s

  -- The thread of `stoppable`.
  unfoldable pub stoppable : List (Turn R) → S → S
  unfolding poll_timeout
  stoppable [] s = s
  stoppable (turn ∷ turns) s =
      let rest = stoppable turns (poll_timeout turn.received s) in if turn.message then s else rest

-- The requests in front of the first result that is none.
abbrev pub taken : {R : Type 0} → List (Received R) → List R
taken (request r ∷ rs) = r ∷ taken rs
taken (nothing ∷ rs) = []
taken (failure ∷ rs) = []
taken [] = []

-- The requests of the turns in front of the first one with a message.
abbrev pub taken_in_turns : {R : Type 0} → List (Turn R) → List R
taken_in_turns [] = []
taken_in_turns (turn ∷ turns) =
    let rest = taken_in_turns turns in if turn.message then [] else taken turn.received ++ rest

module _ {R S : Type 0} (process : R → S → S) where
  run-append :
      (rs qs : List R) (s : S) → run process (rs ++ qs) s ≡ run process qs (run process rs s)
  unfolding run
  run-append [] qs s = refl
  run-append (r ∷ rs) qs s = run-append rs qs (process r s)

  pub poll-run : (rs : List (Received R)) (s : S) → poll process rs s ≡ run process (taken rs) s
  unfolding poll run
  poll-run (request r ∷ rs) s = poll-run rs (process r s)
  poll-run (nothing ∷ rs) s = refl
  poll-run (failure ∷ rs) s = refl
  poll-run [] s = refl

  poll_timeout-run :
      (rs : List (Received R)) (s : S) → poll_timeout process rs s ≡ run process (taken rs) s
  unfolding poll_timeout run
  poll_timeout-run (request r ∷ rs) s = poll_timeout-run rs (process r s)
  poll_timeout-run (nothing ∷ rs) s = refl
  poll_timeout-run (failure ∷ rs) s = refl
  poll_timeout-run [] s = refl

  pub stoppable-run :
      (turns : List (Turn R)) (s : S)
      → stoppable process turns s ≡ run process (taken_in_turns turns) s
  unfolding stoppable run
  stoppable-run [] s = refl
  stoppable-run (turn ∷ turns) s = elim (Bool-cases turn.message) [
    | inl stops ↦ rw stops refl
    | inr goes_on ↦ rw goes_on (
        ap (stoppable process turns) (poll_timeout-run turn.received s)
        ∙ stoppable-run turns (run process (taken turn.received) s)
        ∙ sym (run-append (taken turn.received) (taken_in_turns turns) s))
  ]
