-- ===== src/Input/Priority/Compare.antt =====
-- The inner loop of `priority_header_preferred`, src/input/priority_header.rs.
use rouille.Common.{
  ℕ, suc, ◌+◌, ◌≡◌, refl, Bool, true, false, ◌⊎◌, inl, inr, Option, some, List, [], ◌∷◌,
  if◌then◌else◌, Text, get_elem?, arith,
}
use rouille.Input.Priority.{Floats, accepts, compare_with}

-- Whether it is a number: NaN is not less than or equal to itself.
abbrev pub is_number : (fl : Floats) → fl.F32 → Bool
is_number fl a = fl.le a a

-- The comparison of `f32`, which is total on all but NaN.
pub record IsOrder (fl : Floats) : Type 0 where
  pub trans : (a b c : fl.F32) → fl.le a b ≡ true → fl.le b c ≡ true → fl.le a c ≡ true
  pub total :
      (a b : fl.F32)
      → is_number fl a ≡ true
      → is_number fl b ≡ true
      → (fl.le a b ≡ true) ⊎ (fl.le b a ≡ true)
  pub neg_infinity_is_number : is_number fl fl.neg_infinity ≡ true

module _ (fl : Floats) where
  -- No entry that goes with the element has a higher priority.
  abbrev AllBelow : Text → List (Text × fl.F32) → fl.F32 → Type 0
  AllBelow req [] q = Unit
  AllBelow req ((head, prio) ∷ header) q =
      ((accepts fl req head ≡ false) ⊎ (fl.le prio q ≡ true)) × AllBelow req header q

  abbrev pub IsBound : List Text → List (Text × fl.F32) → fl.F32 → Type 0
  IsBound [] header q = Unit
  IsBound (req ∷ elements) header q = AllBelow req header q × IsBound elements header q

  -- No priority is NaN.
  abbrev pub AreNumbers : List (Text × fl.F32) → Type 0
  AreNumbers [] = Unit
  AreNumbers ((head, prio) ∷ header) = (is_number fl prio ≡ true) × AreNumbers header

  -- The index counts from `base`; the priority is that of an entry that goes with the element.
  pub record Pick (base : ℕ) (elements : List Text) (header : List (Text × fl.F32))
      (index : Option ℕ) (prio : fl.F32) : Type 0 where
    pub offset : ℕ
    pub req : Text
    pub place : ℕ
    pub head : Text
    pub chosen : index ≡ some (base + offset)
    pub is_element : get_elem? elements offset ≡ some req
    pub is_entry : get_elem? header place ≡ some (head, prio)
    pub accepted : accepts fl req head ≡ true

  Pick-later :
      (index : ℕ) (elements : List Text) (e : Text × fl.F32) (header : List (Text × fl.F32))
      (i : Option ℕ) (q : fl.F32)
      → Pick index elements header i q
      → Pick index elements (e ∷ header) i q
  Pick-later index elements e header i q p = record {
    offset = p.offset;
    req = p.req;
    place = suc p.place;
    head = p.head;
    chosen = p.chosen;
    is_element = p.is_element;
    is_entry = p.is_entry;
    accepted = p.accepted;
  }

  picks_later :
      (index : ℕ) (req : Text) (e : Text × fl.F32) (header : List (Text × fl.F32))
      (before after : Option ℕ × fl.F32)
      → (after ≡ before) ⊎ Pick index (req ∷ []) header after.0 after.1
      → (after ≡ before) ⊎ Pick index (req ∷ []) (e ∷ header) after.0 after.1
  picks_later index req e header before after (inl same) = inl same
  picks_later index req e header before after (inr p) =
      inr (Pick-later index (req ∷ []) e header after.0 after.1 p)

  picks_now :
      (index : ℕ) (req head : Text) (prio : fl.F32) (header : List (Text × fl.F32))
      (after : Option ℕ × fl.F32)
      → accepts fl req head ≡ true
      → (after ≡ (some index, prio)) ⊎ Pick index (req ∷ []) header after.0 after.1
      → Pick index (req ∷ []) ((head, prio) ∷ header) after.0 after.1
  picks_now index req head prio header after a (inl same) = record {
    offset = 0;
    req = req;
    place = 0;
    head = head;
    chosen = ground arith;
    is_element = refl;
    is_entry = ground arith;
    accepted = a;
  }
  picks_now index req head prio header after a (inr p) =
      Pick-later index (req ∷ []) (head, prio) header after.0 after.1 p

  entry_taken :
      (index : ℕ) (req head : Text) (prio : fl.F32) (header : List (Text × fl.F32))
      (before : Option ℕ × fl.F32) (low goes : Bool)
      → ((r : Option ℕ × fl.F32)
          → (compare_with fl index req header r ≡ r)
            ⊎ Pick index
                (req ∷ [])
                header
                (compare_with fl index req header r).0
                (compare_with fl index req header r).1)
      → accepts fl req head ≡ goes
      → let after =
          compare_with fl index req header
            (if low then before else if goes then (some index, prio) else before) in
        (after ≡ before) ⊎ Pick index (req ∷ []) ((head, prio) ∷ header) after.0 after.1
  entry_taken index req head prio header before true goes ih g =
      picks_later index req (head, prio) header before _ (ih before)
  entry_taken index req head prio header before false false ih g =
      picks_later index req (head, prio) header before _ (ih before)
  entry_taken index req head prio header before false true ih g =
      inr (picks_now index req head prio header _ g (ih (some index, prio)))

  -- What the inner loop takes, whatever the numbers are.
  pub compare_with-Pick :
      (index : ℕ) (req : Text) (header : List (Text × fl.F32)) (before : Option ℕ × fl.F32)
      → (compare_with fl index req header before ≡ before)
        ⊎ Pick index
            (req ∷ [])
            header
            (compare_with fl index req header before).0
            (compare_with fl index req header before).1
  unfolding compare_with
  compare_with-Pick index req [] before = inl refl
  compare_with-Pick index req ((head, prio) ∷ header) before =
      entry_taken index req head prio header before _ _ (compare_with-Pick index req header) refl

  module _ (order : IsOrder fl) where
    pub AllBelow-le :
        (req : Text) (header : List (Text × fl.F32)) (q r : fl.F32)
        → AllBelow req header q
        → fl.le q r ≡ true
        → AllBelow req header r
    AllBelow-le req [] q r h e = tt
    AllBelow-le req ((head, prio) ∷ header) q r (inl a, h) e =
        (inl a, AllBelow-le req header q r h e)
    AllBelow-le req ((head, prio) ∷ header) q r (inr a, h) e =
        (inr (order.trans prio q r a e), AllBelow-le req header q r h e)

    -- What a run of the inner loop does.
    pub record Compared (index : ℕ) (req : Text) (header : List (Text × fl.F32))
        (before after : Option ℕ × fl.F32) : Type 0 where
      pub bound : AllBelow req header after.1
      pub rises : fl.le before.1 after.1 ≡ true
      pub number : is_number fl after.1 ≡ true

    passed_below :
        (req head : Text) (prio q r : fl.F32)
        → (accepts fl req head ≡ false) ⊎ (fl.le prio q ≡ true)
        → fl.le q r ≡ true
        → (accepts fl req head ≡ false) ⊎ (fl.le prio r ≡ true)
    passed_below req head prio q r (inl a) e = inl a
    passed_below req head prio q r (inr a) e = inr (order.trans prio q r a e)

    passed :
        (index : ℕ) (req head : Text) (prio : fl.F32) (header : List (Text × fl.F32))
        (before after : Option ℕ × fl.F32)
        → (accepts fl req head ≡ false) ⊎ (fl.le prio before.1 ≡ true)
        → Compared index req header before after
        → Compared index req ((head, prio) ∷ header) before after
    passed index req head prio header before after a c = record {
      bound = (passed_below req head prio before.1 after.1 a c.rises, c.bound);
      rises = c.rises;
      number = c.number;
    }

    accepted :
        (index : ℕ) (req head : Text) (prio : fl.F32) (header : List (Text × fl.F32))
        (before after : Option ℕ × fl.F32)
        → fl.le before.1 prio ≡ true
        → Compared index req header (some index, prio) after
        → Compared index req ((head, prio) ∷ header) before after
    accepted index req head prio header before after e c = record {
      bound = (inr c.rises, c.bound);
      rises = order.trans before.1 prio after.1 e c.rises;
      number = c.number;
    }

    ge_of-not_le :
        (a b : fl.F32)
        → is_number fl a ≡ true
        → is_number fl b ≡ true
        → fl.le a b ≡ false
        → fl.le b a ≡ true
    ge_of-not_le a b m n e = elim (order.total a b m n) [ inl f ↦ absurd (cc) | inr f ↦ f ]

    compare_entry :
        (index : ℕ) (req head : Text) (prio : fl.F32) (header : List (Text × fl.F32))
        (before : Option ℕ × fl.F32) (low goes : Bool)
        → ((r : Option ℕ × fl.F32)
            → is_number fl r.1 ≡ true
            → Compared index req header r (compare_with fl index req header r))
        → is_number fl prio ≡ true
        → is_number fl before.1 ≡ true
        → fl.le prio before.1 ≡ low
        → accepts fl req head ≡ goes
        → Compared index req ((head, prio) ∷ header) before (
            compare_with fl index req header
              (if low then before else if goes then (some index, prio) else before))
    compare_entry index req head prio header before true goes ih m n l g =
        passed index req head prio header before _ (inr l) (ih before n)
    compare_entry index req head prio header before false false ih m n l g =
        passed index req head prio header before _ (inl g) (ih before n)
    compare_entry index req head prio header before false true ih m n l g =
        accepted index req head prio header before _ (ge_of-not_le prio before.1 m n l)
          (ih (some index, prio) m)

    pub compare_with_lem :
        (index : ℕ) (req : Text) (header : List (Text × fl.F32)) (before : Option ℕ × fl.F32)
        → AreNumbers header
        → is_number fl before.1 ≡ true
        → Compared index req header before (compare_with fl index req header before)
    unfolding compare_with
    compare_with_lem index req [] before ms n = record { bound = tt; rises = n; number = n }
    compare_with_lem index req ((head, prio) ∷ header) before (m, ms) n =
        compare_entry index req head prio header before _ _
          (λ r k. compare_with_lem index req header r ms k) m n refl refl
