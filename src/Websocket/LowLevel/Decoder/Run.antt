-- ===== src/Websocket/LowLevel/Decoder/Run.antt =====
-- Runs of the byte decoder over several bytes: a header, a part of a payload, the end of one.
use rouille.Common.{
  ℕ, zero, suc, ◌+◌, ◌-◌, ◌%◌, ◌≤◌, ◌<◌, ◌≡◌, ◌≢◌, refl, sym, ap, ◌∙◌, [], ◌∷◌, ◌++◌, map, Bytes,
  length, length-append, take, drop, append_assoc, append-nil, arith, bit_xor,
}
use rouille.Websocket.LowLevel.Unmask.{unmask, mask_octet}
use rouille.Websocket.LowLevel.Decoder.{
  start, byte, end, refused, Decoder, at_header, at_payload, stopped, Header, incomplete, bad,
  complete, header_of, header_size, enter, announce, decode_byte, emit, after, events,
}
use rouille.Websocket.LowLevel.Decoder.Prefix.{
  header_of-append, header_size_last, header_size-append, header_size-incomplete, size_above,
}

pub after-append : (d : Decoder) (xs ys : Bytes) → after d (xs ++ ys) ≡ after (after d xs) ys
unfolding after
after-append d [] ys = refl
after-append d (x ∷ xs) ys = after-append (decode_byte d x) xs ys

pub events-append :
    (d : Decoder) (xs ys : Bytes) → events d (xs ++ ys) ≡ events d xs ++ events (after d xs) ys
unfolding events after
events-append d [] ys = refl
events-append d (x ∷ xs) ys =
    ap (◌++◌ (emit d x)) (events-append (decode_byte d x) xs ys)
    ∙ sym (
        append_assoc (emit d x) (events (decode_byte d x) xs)
          (events (after (decode_byte d x) xs) ys))

after-stopped : (xs : Bytes) → (after stopped xs ≡ stopped) × (events stopped xs ≡ [])
unfolding after events decode_byte emit
after-stopped [] = (refl, refl)
after-stopped (x ∷ xs) = after-stopped xs

-- A run over bytes with which a header is undecided, refused or complete.
abbrev pub HeaderRun : Bytes → Bytes → Header → Type 0
HeaderRun h xs incomplete =
    (after (at_header h) xs ≡ at_header (h ++ xs)) × (events (at_header h) xs ≡ [])
HeaderRun h xs (bad desc) =
    (after (at_header h) xs ≡ stopped) × (events (at_header h) xs ≡ refused desc ∷ [])
HeaderRun h xs (complete fin len opcode mask) =
    let rest = drop (header_size (h ++ xs) - length h) xs in
    (after (at_header h) xs ≡ after (at_payload mask 0 len) rest)
    × (events (at_header h) xs ≡ start fin len opcode ∷ events (at_payload mask 0 len) rest)

-- An undecided byte is one byte of the run.
HeaderRun-cons :
    (h : Bytes) (x : ℕ) (xs : Bytes) (r : Header)
    → header_of (h ++ x ∷ []) ≡ incomplete
    → HeaderRun (h ++ x ∷ []) xs r
    → HeaderRun h (x ∷ xs) r
unfolding after events decode_byte emit enter announce
HeaderRun-cons h x xs incomplete p (a, e) = rw p (a ∙ ap at_header (append_assoc h (x ∷ []) xs), e)
HeaderRun-cons h x xs (bad desc) p (a, e) = rw p (a, e)
HeaderRun-cons h x xs (complete fin len opcode mask) p (a, e) =
    let above = size_above (h ++ x ∷ []) xs (header_size-incomplete (h ++ x ∷ []) p) in
    let one = length-append h (x ∷ []) in
    let above' = rw (append_assoc h (x ∷ []) xs) at above in
    let left : header_size (h ++ x ∷ xs) - length h
        ≡ suc (header_size (h ++ x ∷ xs) - length (h ++ x ∷ [])) =
      omega arith in
    let a' = rw (append_assoc h (x ∷ []) xs) at a in
    let e' = rw (append_assoc h (x ∷ []) xs) at e in rw (p, left) (a', e')

HeaderRun-last :
    (h : Bytes) (x : ℕ) (xs : Bytes) (r : Header)
    → header_of h ≡ incomplete
    → header_of (h ++ x ∷ []) ≡ r
    → r ≢ incomplete
    → HeaderRun h (x ∷ xs) r
unfolding after events decode_byte emit enter announce
HeaderRun-last h x xs incomplete e p ne = absurd (ne refl)
HeaderRun-last h x xs (bad desc) e p ne =
    let (a, v) = after-stopped xs in rw p (a, ap (◌∷◌ (refused desc)) v)
HeaderRun-last h x xs (complete fin len opcode mask) e p ne =
    let last = header_size_last h x fin len opcode mask e p in
    let one = length-append h (x ∷ []) in
    let big : 2 ≤ length (h ++ x ∷ []) = ground arith in
    let whole = header_size-append (h ++ x ∷ []) xs big in
    let same : header_size (h ++ x ∷ xs) - length h ≡ 1 =
      omega (arith, rw (append_assoc h (x ∷ []) xs) at whole) in
    rw (p, same) (refl, refl)

-- Whatever follows an undecided header, the decoder does what the bytes together say.
pub header_run : (h xs : Bytes) → header_of h ≡ incomplete → HeaderRun h xs (header_of (h ++ xs))
unfolding after events
header_run h [] e = rw (append-nil, e) (ap at_header (sym (append-nil h)), refl)
header_run h (x ∷ xs) e = go (header_of (h ++ x ∷ [])) (header_run (h ++ x ∷ []) xs) refl
  where
    decided : header_of (h ++ x ∷ []) ≢ incomplete → HeaderRun h (x ∷ xs) (header_of (h ++ x ∷ xs))
    decided ne =
        let same = header_of-append (h ++ x ∷ []) xs ne in
        let same' = rw (append_assoc h (x ∷ []) xs) at same in
        rw same' (HeaderRun-last h x xs (header_of (h ++ x ∷ [])) e refl ne)

    go :
        (r : Header)
        → (header_of (h ++ x ∷ []) ≡ incomplete
            → HeaderRun (h ++ x ∷ []) xs (header_of ((h ++ x ∷ []) ++ xs)))
        → header_of (h ++ x ∷ []) ≡ r
        → HeaderRun h (x ∷ xs) (header_of (h ++ x ∷ xs))
    go incomplete ih p =
        let ih' = rw (append_assoc h (x ∷ []) xs) at (ih p) in
        HeaderRun-cons h x xs (header_of (h ++ x ∷ xs)) p ih'
    go (bad desc) ih p = decided (λ q. cc)
    go (complete fin len opcode mask) ih p = decided (λ q. cc)

pub payload_part :
    (mask offset r : ℕ) (xs : Bytes)
    → offset < 4
    → length xs < r
    → (after (at_payload mask offset r) xs
        ≡ at_payload mask ((offset + length xs % 4) % 4) (r - length xs))
      × (events (at_payload mask offset r) xs ≡ map byte (unmask mask offset xs))
unfolding after events decode_byte emit unmask
payload_part mask offset zero xs o h = absurd (omega arith)
payload_part mask offset (suc r) [] o h =
    let same : (offset + 0 % 4) % 4 ≡ offset = omega arith in
    let all : suc r - 0 ≡ suc r = omega arith in (rw (same, all), refl)
payload_part mask offset (suc zero) (x ∷ xs) o h = absurd (omega arith)
payload_part mask offset (suc (suc r)) (x ∷ xs) o h =
    let same : (offset + suc (length xs) % 4) % 4 ≡ ((offset + 1) % 4 + length xs % 4) % 4 =
      omega arith in
    let (a, e) = payload_part mask ((offset + 1) % 4) (suc r) xs (omega arith) (omega arith) in
    let less : suc (suc r) - suc (length xs) ≡ suc r - length xs = omega arith in
    (rw (a, same, less) refl, ap (◌∷◌ (byte (bit_xor x (mask_octet mask offset)))) e)

pub payload_end :
    (mask offset r : ℕ) (xs : Bytes)
    → xs ≢ []
    → r ≤ length xs
    → (after (at_payload mask offset r) xs ≡ after (at_header []) (drop r xs))
      × (events (at_payload mask offset r) xs
          ≡ map byte (unmask mask offset (take r xs)) ++ (end ∷ events (at_header []) (drop r xs)))
unfolding after events decode_byte emit unmask enter announce header_of
payload_end mask offset zero [] ne h = absurd (ne refl)
payload_end mask offset zero (x ∷ xs) ne h = (refl, refl)
payload_end mask offset (suc zero) [] ne h = absurd (ne refl)
payload_end mask offset (suc zero) (x ∷ xs) ne h = (refl, refl)
payload_end mask offset (suc (suc r)) [] ne h = absurd (ne refl)
payload_end mask offset (suc (suc r)) (x ∷ []) ne h = absurd (omega arith)
payload_end mask offset (suc (suc r)) (x ∷ y ∷ xs) ne h =
    let (a, e) = payload_end mask ((offset + 1) % 4) (suc r) (y ∷ xs) (λ p. cc) (omega arith) in
    (a, ap (◌∷◌ (byte (bit_xor x (mask_octet mask offset)))) e)
