-- ===== src/Routing/Choice/Accepted.antt =====
-- The branch of `accept!` (src/input/accept.rs).
use rouille.Common.{
  ℕ, zero, suc, ◌≡◌, refl, Option, none, some, List, [], ◌∷◌, map, get_elem?, Text, text, arith,
}
use rouille.Http.Request.{Request, header}
use rouille.Input.Priority.{Floats, priority_header_preferred}
use rouille.Input.Priority.Best.{priority_header_preferred-Pick}
use rouille.Routing.Choice.{accept, count_down-get_elem?, unwrap_or_zero, or_any}

module _ {A : Type 0} (fl : Floats) where
  get_elem?-map :
      (branches : List (Text × A)) (i : ℕ) (mime : Text)
      → get_elem? (map (λ b. b.0) branches) i ≡ some mime
      → (branch : Text × A) × (get_elem? branches i ≡ some branch)
  get_elem?-map [] i mime e = cc
  get_elem?-map (b ∷ branches) zero mime e = (b, refl)
  get_elem?-map (b ∷ branches) (suc i) mime e = get_elem?-map branches i mime e

  chosen_branch :
      (b : Text × A) (branches : List (Text × A)) (input : Text) (index : Option ℕ)
      → priority_header_preferred fl input (map (λ b. b.0) (b ∷ branches)) ≡ index
      → (branch : Text × A) × (get_elem? (b ∷ branches) (unwrap_or_zero index) ≡ some branch)
  chosen_branch b branches input none e = (b, refl)
  chosen_branch b branches input (some i) e =
      let (prio, pick) =
        priority_header_preferred-Pick fl input (map (λ b. b.0) (b ∷ branches)) i e in
      let (branch, found) = get_elem?-map (b ∷ branches) pick.offset pick.req pick.is_element in
      (branch, ground (arith, pick.chosen))

  -- With at least one branch, `accept!` does not panic, whatever the header Accept is, also where
  -- a priority is NaN: its value is that of the branch at the preferred index, or of the first
  -- branch where none is preferred.
  pub accept-get_elem? :
      (request : Request) (b : Text × A) (branches : List (Text × A))
      → (branch : Text × A) × (get_elem? (b ∷ branches) (
            unwrap_or_zero (
              priority_header_preferred fl
                (or_any (header request (text "Accept")))
                (map (λ b. b.0) (b ∷ branches))))
          ≡ some branch)
        × (accept fl request (b ∷ branches) ≡ some branch.1)
  unfolding accept
  accept-get_elem? request b branches =
      let value = or_any (header request (text "Accept")) in
      let index = priority_header_preferred fl value (map (λ b. b.0) (b ∷ branches)) in
      let (branch, found) = chosen_branch b branches value index refl in
      (
        branch,
        found,
        ground (arith, count_down-get_elem? (unwrap_or_zero index) (b ∷ branches) branch found),
      )
