-- ===== src/Websocket/LowLevel/Refinement/Step.antt =====
-- One call of `ElementsIter::next` against the byte decoder.
use rouille.Common.{
  ℕ, ◌+◌, ◌-◌, ◌*◌, ◌%◌, ◌≤◌, ◌<◌, ◌≡◌, ◌≢◌, refl, sym, ap, ◌∙◌, Bool, true, false, none, some,
  List, [], ◌∷◌, ◌++◌, map, length, length-drop, length-take_le, take, drop, Bytes, Text, text,
  arith, append-nil, append_assoc, if◌then◌else◌, lt→ltb, le→ltb, dec_lt,
}
use rouille.Common.Utf8.{as_bytes}
use rouille.Websocket.LowLevel.{
  Data, Element, frame_start, payload, error, StateMachineInner, in_header, in_data, StateMachine,
  feed, next, next_at, next_in_data,
}
use rouille.Websocket.LowLevel.Unmask.{collect-unmask, unmask}
use rouille.Websocket.LowLevel.Elements.{element_events}
use rouille.Websocket.LowLevel.Decoder.{
  Event, start, byte, end, refused, Decoder, at_header, at_payload, stopped, after, events,
  extended, header_of, header_size, Header, incomplete, bad, complete,
}
use rouille.Websocket.LowLevel.Decoder.Prefix.{header_size-incomplete, size_above}
use rouille.Websocket.LowLevel.Decoder.Run.{header_run, HeaderRun, payload_part, payload_end}
use rouille.Websocket.LowLevel.Refinement.Reading.{AllBytes, AllBytes-append, AllBytes-drop}
use rouille.Websocket.LowLevel.Refinement.HeaderStep.{outcome, next_in_header_lem}

-- The buffer holds the start of a header, in bytes, and is empty inside the data of a frame.
abbrev IsReadyIn : StateMachineInner → Bytes → Type 0
IsReadyIn in_header buffer = (header_of buffer ≡ incomplete) × AllBytes buffer
IsReadyIn (in_data mask offset remaining_len) buffer = (buffer ≡ []) × (offset < 4)

abbrev pub IsReady : StateMachine → Type 0
IsReady s = IsReadyIn s.inner s.buffer

-- The byte decoder at the same place of the stream.
abbrev pub decoder_in : StateMachineInner → Bytes → Decoder
decoder_in in_header buffer = at_header buffer
decoder_in (in_data mask offset remaining_len) buffer = at_payload mask offset remaining_len

abbrev pub decoder_of : StateMachine → Decoder
decoder_of s = decoder_in s.inner s.buffer

abbrev pub pending : StateMachineInner → ℕ
pending in_header = 0
pending (in_data mask offset remaining_len) = 1

-- What is left to do for the loop.
abbrev pub work : StateMachine → Bytes → ℕ
work s input = 2 * length input + pending s.inner

abbrev pub IsError : Element → Type 0
IsError (error desc) = Unit
IsError _ = ⊥

-- The element belongs to the states before and behind it: a frame's start leads into its data, and
-- its last data behind it.
abbrev pub Goes : StateMachineInner → Element → StateMachineInner → Type 0
Goes in_header (frame_start fin len opcode) (in_data mask offset r) = Unit
Goes (in_data mask offset r) (payload d true) in_header = d.offset < 4
Goes (in_data mask offset r) (payload d false) (in_data mask' offset' r') = d.offset < 4
Goes _ _ _ = ⊥

-- The bytes of data in an element.
abbrev pub size : Element → ℕ
size (payload d last) = length d.source
size _ = 0

-- The three ways in which `next` ends on an input that is not empty.
pub data NextStep (s : StateMachine) (input : Bytes) : Type 0 where
  waits :
      (s' : StateMachine)
      → next (feed s input) ≡ some (none, feed s' [])
      → IsReady s'
      → after (decoder_of s) input ≡ decoder_of s'
      → events (decoder_of s) input ≡ []
      → s'.inner ≡ s.inner
      → NextStep s input
  fails :
      (desc : Text)
      → next (feed s input) ≡ some (some (error desc), feed s input)
      → after (decoder_of s) input ≡ stopped
      → events (decoder_of s) input ≡ refused desc ∷ []
      → length (as_bytes desc) < 126
      → NextStep s input
  yields :
      (e : Element) (s' : StateMachine) (rest : Bytes) (es : List Event)
      → next (feed s input) ≡ some (some e, feed s' rest)
      → ¬ IsError e
      → element_events e ≡ some es
      → IsReady s'
      → AllBytes rest
      → after (decoder_of s) input ≡ after (decoder_of s') rest
      → events (decoder_of s) input ≡ es ++ events (decoder_of s') rest
      → work s' rest < work s input
      → Goes s.inner e s'.inner
      → size e + length rest ≤ length input
      → NextStep s input

bad_length :
    (bytes : Bytes) (desc : Text) → header_of bytes ≡ bad desc → length (as_bytes desc) < 126
unfolding header_of extended as_bytes text
bad_length [] desc e = cc
bad_length (a ∷ []) desc e = cc
bad_length (a ∷ b ∷ t) desc e = ground arith

header_step :
    (buffer : Bytes) (x : ℕ) (xs : Bytes)
    → IsReadyIn in_header buffer
    → AllBytes (x ∷ xs)
    → NextStep (record { inner = in_header; buffer = buffer }) (x ∷ xs)
header_step buffer x xs (waiting, all) p =
    go (header_of (buffer ++ x ∷ xs)) refl (header_run buffer (x ∷ xs) waiting)
  where
    s : StateMachine
    s = record { inner = in_header; buffer = buffer }

    whole : AllBytes (buffer ++ x ∷ xs)
    whole = AllBytes-append buffer (x ∷ xs) all p

    returns : next (feed s (x ∷ xs)) ≡ outcome s (x ∷ xs) (header_of (buffer ++ x ∷ xs))
    returns = unfold next next_at in next_in_header_lem s (x ∷ xs) waiting whole

    go :
        (r : Header)
        → header_of (buffer ++ x ∷ xs) ≡ r
        → HeaderRun buffer (x ∷ xs) (header_of (buffer ++ x ∷ xs))
        → NextStep s (x ∷ xs)
    go incomplete e run =
        let (a, v) = rw e at run in
        waits (record s { buffer = buffer ++ x ∷ xs }) (rw e at returns) (e, whole) a v refl
    go (bad desc) e run =
        let (a, v) = rw e at run in
        fails desc (rw e at returns) a v (bad_length (buffer ++ x ∷ xs) desc e)
    go (complete fin len opcode mask) e run =
        let (a, v) = rw e at run in
        let off = header_size (buffer ++ x ∷ xs) - length buffer in
        yields (frame_start fin len opcode) (record { inner = in_data mask 0 len; buffer = [] })
          (drop off (x ∷ xs)) (start fin len opcode ∷ []) (rw e at returns) (λ h. h)
          (unfold element_events in refl) (refl, omega arith) (AllBytes-drop off (x ∷ xs) p) a v
          (omega (
            arith,
            header_size-incomplete buffer waiting,
            size_above buffer (x ∷ xs),
            length-drop off (x ∷ xs),
          ))
          tt (omega (arith, length-drop off (x ∷ xs)))

payload_events :
    (d : Data) (last : Bool) (es : List Event)
    → d.offset < 4
    → map byte (unmask d.mask d.offset d.source) ++ (if last then end ∷ [] else []) ≡ es
    → element_events (payload d last) ≡ some es
unfolding element_events
payload_events d true es h e = rw (collect-unmask d h) (ap some e)
payload_events d false es h e = rw (collect-unmask d h) (ap some e)

module _ (mask offset r x : ℕ) (xs : Bytes) (o : offset < 4) (p : AllBytes (x ∷ xs)) where
  s : StateMachine
  s = record { inner = in_data mask offset r; buffer = [] }

  data_part : length (x ∷ xs) < r → NextStep s (x ∷ xs)
  data_part less =
      let (a, v) = payload_part mask offset r (x ∷ xs) o less in
      yields (payload (record { source = x ∷ xs; mask = mask; offset = offset }) false)
        (record {
          inner = in_data mask ((offset + length (x ∷ xs) % 4) % 4) (r - length (x ∷ xs));
          buffer = [];
        })
        [] (map byte (unmask mask offset (x ∷ xs)))
        (unfold next next_at next_in_data s in rw (lt→ltb (length (x ∷ xs)) r less)) (λ h. h)
        (payload_events _ false _ o (append-nil _)) (refl, omega arith) tt (unfold s after in a)
        (unfold s events in v ∙ sym (append-nil _)) (unfold s in omega arith) (unfold s in o)
        (omega arith)

  data_end : r ≤ length (x ∷ xs) → NextStep s (x ∷ xs)
  data_end all =
      let (a, v) = payload_end mask offset r (x ∷ xs) (λ h. cc) all in
      yields (payload (record { source = take r (x ∷ xs); mask = mask; offset = offset }) true)
        (record { inner = in_header; buffer = [] }) (drop r (x ∷ xs))
        (map byte (unmask mask offset (take r (x ∷ xs))) ++ end ∷ [])
        (unfold next next_at next_in_data s in rw (le→ltb (length (x ∷ xs)) r all)) (λ h. h)
        (payload_events _ true _ o refl) (unfold header_of in (refl, tt))
        (AllBytes-drop r (x ∷ xs) p) (unfold s in a)
        (unfold s in
          v ∙ sym (append_assoc (map byte (unmask mask offset (take r (x ∷ xs)))) (end ∷ []) _))
        (unfold s in omega (arith, length-drop r (x ∷ xs))) (unfold s in o)
        (omega (arith, length-take_le r (x ∷ xs) all, length-drop r (x ∷ xs)))

  data_step : NextStep s (x ∷ xs)
  data_step = elim (dec_lt (length (x ∷ xs)) r) [
    | yes less ↦ data_part less
    | no more ↦ data_end (omega arith)
  ]

-- From a ready state, `next` does not panic, and tells what the byte decoder tells.
pub next-NextStep :
    (i : StateMachineInner) (buffer input : Bytes)
    → IsReadyIn i buffer
    → input ≢ []
    → AllBytes input
    → NextStep (record { inner = i; buffer = buffer }) input
next-NextStep i buffer [] ready ne p = absurd (ne refl)
next-NextStep in_header buffer (x ∷ xs) ready ne p = header_step buffer x xs ready p
next-NextStep (in_data mask offset r) buffer (x ∷ xs) (e, o) ne p =
    rw e (unfold s in data_step mask offset r x xs o p)
