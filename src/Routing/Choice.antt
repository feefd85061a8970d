-- ===== src/Routing/Choice.antt =====
-- `find_route!` (src/find_route.rs) and `accept!` (src/input/accept.rs).
pub mod Accepted
use rouille.Common.{
  true, false, ℕ, suc, zero, ◌+◌, ◌≡◌, refl, ◌≢◌, Option, none, some, List, [], ◌∷◌, ◌++◌, ◌==◌,
  if◌then◌else◌, map, arith, get_elem?, Text, text,
}
use rouille.Http.Request.{Request, Bodies, header}
use rouille.Http.Response.{Response, empty_404}
use rouille.Input.Priority.{Floats, priority_header_preferred}

-- An argument of `find_route!`, with the bodies that it may take.
abbrev pub Handler : Type 0
Handler = Bodies → Response × Bodies

-- The chain of tests that `find_route!` is.
unfoldable try_routes : List Handler → Response → Bodies → Response × Bodies
try_routes [] response bodies = (response, bodies)
try_routes (handler ∷ handlers) response bodies =
    let (next, rest) = handler bodies in
    elim (response.status_code == 404) [
      | true ↦ try_routes handlers next rest
      | false ↦ try_routes handlers response bodies
    ]

unfoldable pub find_route : List Handler → Bodies → Response × Bodies
unfolding try_routes empty_404
find_route handlers = try_routes handlers empty_404

abbrev pub unwrap_or_zero : Option ℕ → ℕ
unwrap_or_zero none = 0
unwrap_or_zero (some i) = i

abbrev pub or_any : Option Text → Text
or_any none = text "*/*"
or_any (some h) = h

-- `accept!`: the branches in their order; `none` is the panic of `unwrap`.
module _ {A : Type 0} where
  -- The counter that runs down to the chosen branch.
  unfoldable pub count_down : ℕ → List (Text × A) → Option A → Option A
  count_down preferred [] outcome = outcome
  count_down zero (branch ∷ branches) outcome = count_down zero branches outcome
  count_down (suc preferred) (branch ∷ branches) outcome =
      count_down preferred branches (if preferred == 0 then some branch.1 else outcome)

  unfoldable pub accept : Floats → Request → List (Text × A) → Option A
  unfolding count_down
  accept fl request branches =
      let value = or_any (header request (text "Accept")) in
      let preferred =
        unwrap_or_zero (priority_header_preferred fl value (map (λ b. b.0) branches)) in
      count_down (preferred + 1) branches none

  count_down-zero :
      (branches : List (Text × A)) (outcome : Option A) → count_down zero branches outcome ≡ outcome
  unfolding count_down
  count_down-zero [] outcome = refl
  count_down-zero (b ∷ branches) outcome = count_down-zero branches outcome

  -- The counter ends at the branch of its index.
  pub count_down-get_elem? :
      (preferred : ℕ) (branches : List (Text × A)) (branch : Text × A)
      → get_elem? branches preferred ≡ some branch
      → count_down (suc preferred) branches none ≡ some branch.1
  unfolding count_down
  count_down-get_elem? zero (b ∷ branches) branch e =
      ground (arith, count_down-zero branches (some b.1))
  count_down-get_elem? (suc n) (b ∷ branches) branch e =
      ground (arith, count_down-get_elem? n branches branch e)
  count_down-get_elem? preferred [] branch e = cc

-- Each of these handlers gives a 404, and they leave these bodies.
abbrev AreMissing : List Handler → Bodies → Bodies → Type 0
AreMissing [] bodies after = bodies ≡ after
AreMissing (handler ∷ handlers) bodies after =
    ((handler bodies).0.status_code ≡ 404) × AreMissing handlers (handler bodies).1 after

try_routes_done :
    (handlers : List Handler) (response : Response) (bodies : Bodies)
    → response.status_code ≢ 404
    → try_routes handlers response bodies ≡ (response, bodies)
unfolding try_routes
try_routes_done [] response bodies h = refl
try_routes_done (handler ∷ handlers) response bodies h =
    ground (arith, try_routes_done handlers response bodies h)

try_routes_first :
    (before after : List Handler) (handler : Handler) (response : Response) (bodies left : Bodies)
    → response.status_code ≡ 404
    → AreMissing before bodies left
    → (handler left).0.status_code ≢ 404
    → try_routes (before ++ handler ∷ after) response bodies ≡ handler left
unfolding try_routes
try_routes_first [] after handler response bodies left e h ne =
    ground (arith, try_routes_done after (handler left).0 (handler left).1 ne)
try_routes_first (b ∷ before) after handler response bodies left e (m, h) ne =
    ground (arith, try_routes_first before after handler (b bodies).0 (b bodies).1 left m h ne)

try_routes_missing :
    (handlers : List Handler) (response : Response) (bodies left : Bodies)
    → response.status_code ≡ 404
    → AreMissing handlers bodies left
    → (try_routes handlers response bodies).0.status_code ≡ 404
unfolding try_routes
try_routes_missing [] response bodies left e h = e
try_routes_missing (b ∷ handlers) response bodies left e (m, h) =
    ground (arith, try_routes_missing handlers (b bodies).0 (b bodies).1 left m h)

-- Where the handlers in front give a 404 and the next one does not, the value is what that one
-- gives with the bodies that they left, and no handler behind it is called.
pub find_route_first :
    (before after : List Handler) (handler : Handler) (bodies left : Bodies)
    → AreMissing before bodies left
    → (handler left).0.status_code ≢ 404
    → find_route (before ++ handler ∷ after) bodies ≡ handler left
unfolding find_route empty_404
find_route_first before after handler bodies left h ne =
    try_routes_first before after handler empty_404 bodies left refl h ne

-- Where each handler gives a 404, so does `find_route!`.
find_route_missing :
    (handlers : List Handler) (bodies left : Bodies)
    → AreMissing handlers bodies left
    → (find_route handlers bodies).0.status_code ≡ 404
unfolding find_route empty_404
find_route_missing handlers bodies left h = try_routes_missing handlers empty_404 bodies left refl h
