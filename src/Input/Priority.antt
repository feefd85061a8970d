-- ===== src/Input/Priority.antt =====
-- Headers whose values have priorities, src/input/priority_header.rs.
pub mod Compare
pub mod Best
use rouille.Common.{
  ℕ, suc, ◌+◌, Bool, true, false, ◌&&◌, ◌||◌, Option, none, some, List, [], ◌∷◌, if◌then◌else◌,
  Text, text, text_eq, split, trim, trim_start, strip_prefix,
}

-- What is used of `f32`.
pub record Floats : Type 1 where
  pub F32 : Type 0
  pub from_str : Text → Option F32
  pub one : F32
  pub neg_infinity : F32
  pub le : F32 → F32 → Bool

module _ (fl : Floats) where
  -- The first parameter `q=` whose value is a number.
  unfoldable quality : List Text → fl.F32
  quality [] = fl.one
  quality (p ∷ params) = elim (strip_prefix (text "q=") (trim_start p)) [
    | none ↦ quality params
    | some stripped ↦ elim (fl.from_str (trim stripped)) [ none ↦ quality params | some val ↦ val ]
  ]

  -- `PriorityHeaderIter`: the pieces that are left.
  abbrev PriorityHeaderIter : Type 0
  PriorityHeaderIter = List Text

  unfoldable pub next : PriorityHeaderIter → Option ((Text × fl.F32) × PriorityHeaderIter)
  unfolding quality
  next [] = none
  next (e ∷ iter) = elim (split b';' e) [
    | [] ↦ next iter
    | t ∷ params ↦ some ((trim t, quality params), iter)
  ]

  abbrev elem_of : List Text → List (Text × fl.F32) → List (Text × fl.F32)
  elem_of [] rest = rest
  elem_of (t ∷ params) rest = (trim t, quality params) ∷ rest

  -- What the iterator yields.
  unfoldable parsed : PriorityHeaderIter → List (Text × fl.F32)
  unfolding quality
  parsed [] = []
  parsed (e ∷ iter) = elem_of (split b';' e) (parsed iter)

  unfoldable pub parse_priority_header : Text → List (Text × fl.F32)
  unfolding parsed
  parse_priority_header input = parsed (split b',' input)

  -- `parts.next()` twice
  abbrev halves : List Text → Option Text × Option Text
  halves [] = (none, none)
  halves (l ∷ []) = (some l, none)
  halves (l ∷ r ∷ ps) = (some l, some r)

  abbrev option_eq : Option Text → Option Text → Bool
  option_eq none none = true
  option_eq (some s) (some t) = text_eq s t
  option_eq _ _ = false

  abbrev is_star : Option Text → Bool
  is_star o = option_eq o (some (text "*"))

  -- The tests under which the loop takes the element.
  unfoldable pub accepts : Text → Text → Bool
  accepts req_elem header_elem =
      let req = halves (split b'/' req_elem) in
      let head = halves (split b'/' header_elem) in
      text_eq req_elem header_elem
      || (is_star req.0 || is_star head.0)
        && (option_eq req.1 head.1 || is_star req.1 || is_star head.1)
      || (is_star req.1 || is_star head.1)
        && (option_eq req.0 head.0 || is_star req.0 || is_star head.0)

  -- The inner loop.
  unfoldable pub compare_with :
      ℕ → Text → List (Text × fl.F32) → Option ℕ × fl.F32 → Option ℕ × fl.F32
  compare_with index req_elem [] result = result
  compare_with index req_elem ((header_elem, prio) ∷ rest) result =
      compare_with index req_elem rest (
        if fl.le prio result.1
        then result
        else if accepts req_elem header_elem
        then (some index, prio)
        else result)

  -- The outer loop.
  unfoldable pub compare_all :
      ℕ → List Text → List (Text × fl.F32) → Option ℕ × fl.F32 → Option ℕ × fl.F32
  unfolding compare_with
  compare_all index [] header result = result
  compare_all index (req_elem ∷ elements) header result =
      compare_all (suc index) elements header (compare_with index req_elem header result)

  unfoldable pub priority_header_preferred : Text → List Text → Option ℕ
  unfolding compare_all
  priority_header_preferred input elements =
      (compare_all 0 elements (parse_priority_header input) (none, fl.neg_infinity)).0
