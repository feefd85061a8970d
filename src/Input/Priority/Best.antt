-- ===== src/Input/Priority/Best.antt =====
-- The element that `priority_header_preferred` of src/input/priority_header.rs prefers.
use rouille.Common.{
  ℕ, zero, suc, ◌≡◌, refl, true, ◌⊎◌, inl, inr, Option, none, some, List, [], ◌∷◌, Text, get_elem?,
  arith, ap, sym,
}
use rouille.Input.Priority.{
  Floats, compare_with, compare_all, parse_priority_header, priority_header_preferred,
}
use rouille.Input.Priority.Compare.{
  is_number, IsOrder, AreNumbers, IsBound, Pick, AllBelow-le, compare_with_lem, compare_with-Pick,
}

module _ (fl : Floats) where
  -- What the answer says of the elements and of the header's entries.
  abbrev pub IsDecided : List Text → List (Text × fl.F32) → Option ℕ → Type 0
  IsDecided elements header none = IsBound fl elements header fl.neg_infinity
  IsDecided elements header (some i) =
      (prio : fl.F32) × Pick fl 0 elements header (some i) prio × IsBound fl elements header prio

  only_element : (x y : Text) (n : ℕ) → get_elem? {A = Text} (x ∷ []) n ≡ some y → (n ≡ 0) × (y ≡ x)
  only_element x y zero e = ground arith
  only_element x y (suc n) e = cc

  picks_of :
      (base : ℕ) (req : Text) (elements : List Text) (header : List (Text × fl.F32))
      (before between after : Option ℕ × fl.F32)
      → (between ≡ before) ⊎ Pick fl base (req ∷ []) header between.0 between.1
      → (after ≡ between) ⊎ Pick fl (suc base) elements header after.0 after.1
      → (after ≡ before) ⊎ Pick fl base (req ∷ elements) header after.0 after.1
  picks_of base req elements header before between after first (inr p) = inr (record {
    offset = suc p.offset;
    req = p.req;
    place = p.place;
    head = p.head;
    chosen = ground (arith, p.chosen);
    is_element = p.is_element;
    is_entry = p.is_entry;
    accepted = p.accepted;
  })
  picks_of base req elements header before between after (inl e) (inl f) = inl (cc)
  picks_of base req elements header before between after (inr p) (inl f) = inr (record {
    offset = 0;
    req = req;
    place = p.place;
    head = p.head;
    chosen =
        ground (arith, p.chosen, (only_element req p.req p.offset p.is_element).0, ap (λ r. r.0) f);
    is_element = refl;
    is_entry = ground (arith, p.is_entry, ap (λ r. r.1) f);
    accepted = ground (arith, p.accepted, (only_element req p.req p.offset p.is_element).1);
  })

  -- What the outer loop takes, whatever the numbers are.
  compare_all-Pick :
      (base : ℕ) (elements : List Text) (header : List (Text × fl.F32)) (before : Option ℕ × fl.F32)
      → (compare_all fl base elements header before ≡ before)
        ⊎ Pick fl base elements header
            (compare_all fl base elements header before).0
            (compare_all fl base elements header before).1
  unfolding compare_all
  compare_all-Pick base [] header before = inl refl
  compare_all-Pick base (req ∷ elements) header before =
      let between = compare_with fl base req header before in
      picks_of base req elements header before between _
        (compare_with-Pick fl base req header before)
        (compare_all-Pick (suc base) elements header between)

  is_picked :
      (elements : List Text) (header : List (Text × fl.F32)) (i : ℕ) (after : Option ℕ × fl.F32)
      → (after ≡ (none, fl.neg_infinity)) ⊎ Pick fl 0 elements header after.0 after.1
      → after.0 ≡ some i
      → Pick fl 0 elements header (some i) after.1
  is_picked elements header i after (inl same) e = absurd (ground (arith, ap (λ r. r.0) same))
  is_picked elements header i after (inr p) e = rw (← e) p

  -- An index that is returned is that of an element which goes with an entry of the header, also
  -- where there is a NaN.
  pub priority_header_preferred-Pick :
      (input : Text) (elements : List Text) (i : ℕ)
      → priority_header_preferred fl input elements ≡ some i
      → (prio : fl.F32) × Pick fl 0 elements (parse_priority_header fl input) (some i) prio
  unfolding priority_header_preferred
  priority_header_preferred-Pick input elements i e =
      let header = parse_priority_header fl input in
      let after = compare_all fl 0 elements header (none, fl.neg_infinity) in
      (
        after.1,
        is_picked elements header i after
            (compare_all-Pick 0 elements header (none, fl.neg_infinity)) e,
      )

  module _ (order : IsOrder fl) where
    -- What a run of the outer loop does.
    record ComparedAll (base : ℕ) (elements : List Text) (header : List (Text × fl.F32))
        (before after : Option ℕ × fl.F32) : Type 0 where
      pub bound : IsBound fl elements header after.1
      pub rises : fl.le before.1 after.1 ≡ true
      pub number : is_number fl after.1 ≡ true

    compare_all_lem :
        (base : ℕ) (elements : List Text) (header : List (Text × fl.F32))
        (before : Option ℕ × fl.F32)
        → AreNumbers fl header
        → is_number fl before.1 ≡ true
        → ComparedAll base elements header before (compare_all fl base elements header before)
    unfolding compare_all
    compare_all_lem base [] header before ms n = record { bound = tt; rises = n; number = n }
    compare_all_lem base (req ∷ elements) header before ms n =
        let between = compare_with fl base req header before in
        let one = compare_with_lem fl order base req header before ms n in
        let rest = compare_all_lem (suc base) elements header between ms one.number in
        record {
          bound = (AllBelow-le fl order req header _ _ one.bound rest.rises, rest.bound);
          rises = order.trans _ _ _ one.rises rest.rises;
          number = rest.number;
        }

    IsBound-eq :
        (elements : List Text) (header : List (Text × fl.F32)) (q r : fl.F32)
        → q ≡ r
        → IsBound fl elements header q
        → IsBound fl elements header r
    IsBound-eq elements header q r e h = rw (sym e) h

    decided :
        (elements : List Text) (header : List (Text × fl.F32)) (after : Option ℕ × fl.F32)
        → ComparedAll 0 elements header (none, fl.neg_infinity) after
        → (after ≡ (none, fl.neg_infinity)) ⊎ Pick fl 0 elements header after.0 after.1
        → IsDecided elements header after.0
    decided elements header (none, q) c (inl same) =
        IsBound-eq elements header q fl.neg_infinity (ap (λ r. r.1) same) c.bound
    decided elements header (none, q) c (inr p) = absurd (ground (arith, p.chosen))
    decided elements header (some i, q) c (inl same) = absurd (ground (arith, ap (λ r. r.0) same))
    decided elements header (some i, q) c (inr p) = (q, p, c.bound)

    -- For a comparison that is total on all numbers but NaN, as that of f32 is, and a header in
    -- which no priority is NaN: an index that is returned is that of an element which goes with an
    -- entry of the header, and no entry that goes with any of the elements has a higher priority
    -- than that one. Where nothing is returned, no such entry exceeds negative infinity.
    pub priority_header_preferred-IsDecided :
        (input : Text) (elements : List Text)
        → AreNumbers fl (parse_priority_header fl input)
        → IsDecided elements
            (parse_priority_header fl input)
            (priority_header_preferred fl input elements)
    unfolding priority_header_preferred
    priority_header_preferred-IsDecided input elements ms =
        decided elements _ _
          (compare_all_lem 0 elements _ (none, fl.neg_infinity) ms order.neg_infinity_is_number)
          (compare_all-Pick 0 elements _ (none, fl.neg_infinity))
