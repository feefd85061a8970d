-- ===== src/Websocket/LowLevel/Refinement.antt =====
-- `StateMachine::feed` of src/websocket/low_level.rs refines the byte decoder: whatever pieces the
-- bytes come in, the elements say what the decoder says of the bytes one by one.
mod Reading
mod HeaderStep
mod Step
use rouille.Common.{
  ℕ, zero, suc, ◌+◌, ◌*◌, ◌≤◌, ◌<◌, ◌≡◌, ◌≢◌, ◌⊎◌, inl, inr, refl, sym, ap, ◌∙◌, Bool, true, false,
  Option, none, some, List, [], ◌∷◌, ◌++◌, length, Bytes, Text, arith, append-nil, append_assoc,
  ◌>>=◌,
}
use rouille.Websocket.LowLevel.{
  Element, frame_start, payload, error, in_header, in_data, StateMachineInner, StateMachine,
  ElementsIter, feed, next, new,
}
use rouille.Websocket.LowLevel.Elements.{
  elements, Fed, element_events, elements_events, rounds, refuses,
}
use rouille.Websocket.LowLevel.Decoder.{
  Event, refused, Decoder, at_header, at_payload, stopped, after, events, header_of,
}
use rouille.Websocket.LowLevel.Decoder.Run.{after-append, events-append}
use Step.{decoder_in}
use Reading.{AllBytes-append}
pub use Reading.{AllBytes}
pub use Step.{
  IsReady, decoder_of, IsError, Goes, size, work, pending, NextStep, waits, fails, yields,
  next-NextStep,
}

-- The elements tell what the bytes say, and the state is at the same place of the stream, unless
-- the stream is refused.
pub record Follows (s : StateMachine) (input : Bytes) (f : Fed) : Type 0 where
  pub told : elements_events f.elements ≡ some (events (decoder_of s) input)
  pub place :
      ((refuses f.elements ≡ true) × (after (decoder_of s) input ≡ stopped))
      ⊎ ((refuses f.elements ≡ false)
          × (after (decoder_of s) input ≡ decoder_of f.state)
          × IsReady f.state)

refuses-push : (e : Element) (es : List Element) → ¬ IsError e → refuses (e ∷ es) ≡ refuses es
unfolding refuses
refuses-push (frame_start fin len opcode) es ne = refl
refuses-push (payload d last) es ne = refl
refuses-push (error desc) es ne = absurd (ne tt)

Follows-push :
    (s s' : StateMachine) (input rest : Bytes) (e : Element) (es : List Event) (f : Fed)
    → ¬ IsError e
    → element_events e ≡ some es
    → after (decoder_of s) input ≡ after (decoder_of s') rest
    → events (decoder_of s) input ≡ es ++ events (decoder_of s') rest
    → Follows s' rest f
    → Follows s input (record f { elements = e ∷ f.elements })
unfolding elements_events
Follows-push s s' input rest e es f ne here a v later = record {
  told = rw (here, later.told, v) refl;
  place = rw (a, refuses-push e f.elements ne) later.place;
}

-- An element that is no error is pushed in front of the rest of the loop.
elements_push :
    (n : ℕ) (it it' : ElementsIter) (e : Element) (f : Fed)
    → next it ≡ some (some e, it')
    → ¬ IsError e
    → elements n it' ≡ some f
    → elements (suc n) it ≡ some (record f { elements = e ∷ f.elements })
unfolding elements
elements_push n it it' (frame_start fin len opcode) f h ne k = ground arith
elements_push n it it' (payload d last) f h ne k = ground arith
elements_push n it it' (error desc) f h ne k = absurd (ne tt)

elements_lem :
    (n : ℕ) (s : StateMachine) (input : Bytes)
    → IsReady s
    → AllBytes input
    → work s input < n
    → (f : Fed) × (elements n (feed s input) ≡ some f) × Follows s input f
elements_lem zero s input ready p h = absurd (omega arith)
elements_lem (suc n) s [] ready p h = (
  record { elements = []; state = s },
  unfold elements next in refl,
  record {
    told = unfold elements_events events in refl;
    place = inr (unfold refuses in refl, unfold after in refl, ready);
  },
)
elements_lem (suc n) s (x ∷ xs) ready p h =
    go (next-NextStep s.inner s.buffer (x ∷ xs) ready (λ e. cc) p) (elements_lem n)
  where
    go :
        NextStep s (x ∷ xs)
        → ((s' : StateMachine) (input : Bytes)
            → IsReady s'
            → AllBytes input
            → work s' input < n
            → (f : Fed) × (elements n (feed s' input) ≡ some f) × Follows s' input f)
        → (f : Fed) × (elements (suc n) (feed s (x ∷ xs)) ≡ some f) × Follows s (x ∷ xs) f
    go (waits s' e ready' a v same) rest = (
      record { elements = []; state = s' },
      unfold elements in ground arith,
      record {
        told = unfold elements_events in rw v;
        place = inr (unfold refuses in refl, a, ready');
      },
    )
    go (fails desc e a v small) rest = (
      record { elements = error desc ∷ []; state = s },
      unfold elements in ground arith,
      record { told = unfold elements_events in rw v; place = inl (unfold refuses in refl, a) },
    )
    go (yields el s' left es e ne here ready' p' a v less goes fits) rest =
        let (f, k, later) = rest s' left ready' p' (omega arith) in
        (
          record f { elements = el ∷ f.elements },
          elements_push n (feed s (x ∷ xs)) (feed s' left) el f e ne k,
          Follows-push s s' (x ∷ xs) left el es f ne here a v later,
        )

-- Feeding bytes to a ready decoder never panics and ends; what the elements tell is what the byte
-- decoder says of the bytes from the same place of the stream, and unless the stream is refused,
-- the new state is ready and at the byte decoder's place.
pub feed-Follows :
    (s : StateMachine) (input : Bytes)
    → IsReady s
    → AllBytes input
    → (f : Fed) × (elements (rounds input) (feed s input) ≡ some f) × Follows s input f
feed-Follows s input ready p = elements_lem (rounds input) s input ready p (work_bound s.inner)
  where
    work_bound : (i : StateMachineInner) → 2 * length input + pending i < rounds input
    work_bound in_header = omega arith
    work_bound (in_data mask offset r) = omega arith

-- The result of the loop, once it is known.
Follows-fed :
    (s : StateMachine) (input : Bytes) (f : Fed)
    → IsReady s
    → AllBytes input
    → elements (rounds input) (feed s input) ≡ some f
    → Follows s input f
Follows-fed s input f ready p e =
    let (g, k, follows) = feed-Follows s input ready p in
    let same : g ≡ f = cc in rw same at follows

abbrev is_stopped : Decoder → Bool
is_stopped stopped = true
is_stopped _ = false

not_stopped : (i : StateMachineInner) (buffer : Bytes) → is_stopped (decoder_in i buffer) ≡ false
not_stopped in_header buffer = refl
not_stopped (in_data mask offset r) buffer = refl

refuses-is_stopped :
    (s : StateMachine) (input : Bytes) (f : Fed)
    → Follows s input f
    → refuses f.elements ≡ is_stopped (after (decoder_of s) input)
refuses-is_stopped s input f h = elim h.place [
  | inl (r, a) ↦ rw (r, a) refl
  | inr (r, a, _) ↦ rw (r, a) (sym (not_stopped f.state.inner f.state.buffer))
]

-- For a ready decoder and bytes below 256, whose loops end with these results: bytes that come in
-- two pieces tell the same as in one, if the first piece is not refused: the same events,
-- and a refusal exactly when the second piece is refused.
pub feed_pieces :
    (s : StateMachine) (xs ys : Bytes) (f f₁ f₂ : Fed)
    → IsReady s
    → AllBytes xs
    → AllBytes ys
    → elements (rounds xs) (feed s xs) ≡ some f₁
    → refuses f₁.elements ≡ false
    → elements (rounds ys) (feed f₁.state ys) ≡ some f₂
    → elements (rounds (xs ++ ys)) (feed s (xs ++ ys)) ≡ some f
    → (elements_events f.elements ≡ (
        elements_events f₁.elements >>= λ es.
        elements_events f₂.elements >>= λ fs. some (es ++ fs)))
      × (refuses f.elements ≡ refuses f₂.elements)
feed_pieces s xs ys f f₁ f₂ ready p q e₁ fine e₂ e = elim (Follows-fed s xs f₁ ready p e₁).place [
  | inl (refused_first, _) ↦ cc
  | inr (_, place, ready₁) ↦
      let first = Follows-fed s xs f₁ ready p e₁ in
      let second = Follows-fed f₁.state ys f₂ ready₁ q e₂ in
      let both = Follows-fed s (xs ++ ys) f ready (AllBytes-append xs ys p q) e in
      (
        both.told ∙ rw (first.told, second.told, events-append (decoder_of s) xs ys, place) refl,
        refuses-is_stopped s (xs ++ ys) f both
            ∙ rw (after-append (decoder_of s) xs ys, place)
                (sym (refuses-is_stopped f₁.state ys f₂ second)),
      )
]
