-- ===== src/Routing.antt =====
-- Choosing a handler: the macros `router!`, `find_route!`, `accept!` and `try_or_400!`.
pub mod OldStyle
pub mod NewStyle
pub mod Choice
mod Tests
use rouille.Common.{
  ◌≡◌, refl, ◌⊎◌, inl, inr, ◌++◌, arith, Bool-cases, Option, none, some, List, [], ◌∷◌, Bool, true,
  false, ◌&&◌, if◌then◌else◌, Text, text_eq, split_once,
}
use rouille.Http.Request.{Request}

-- What a handler block or a pattern comes to: the outer `none` is a panic.
abbrev pub Outcome : Type 0 → Type 0
Outcome A = Option (Option A)

-- The path in front of the parameters, which both styles match.
abbrev pub request_url : Request → Text
request_url request = (split_once b'?' request.url).0

-- A branch of the macro: its method, and what its pattern and handler make of the path.
pub record Route (A : Type 0) : Type 0 where
  pub method : Text
  pub handler : Text → Outcome A

module _ {A : Type 0} where
  -- The chain of `if ret.is_none() && …`.
  unfoldable pub dispatch : Text → Text → List (Route A) → Option A → Outcome A
  dispatch method path [] ret = some ret
  dispatch method path (route ∷ routes) (some a) = dispatch method path routes (some a)
  dispatch method path (route ∷ routes) none = elim (text_eq method route.method) [
    | false ↦ dispatch method path routes none
    | true ↦ elim (route.handler path) [ none ↦ none | some ret ↦ dispatch method path routes ret ]
  ]

  abbrev pub or_default : A → Outcome A → Option A
  or_default default none = none
  or_default default (some none) = some default
  or_default default (some (some a)) = some a

  -- `router!`; `none` is a panic.
  unfoldable pub router : Request → List (Route A) → A → Option A
  unfolding dispatch
  router request routes default =
      or_default default (dispatch request.method (request_url request) routes none)

  -- No handler of these routes is reached, or each of them is passed over.
  abbrev ArePassed : Text → Text → List (Route A) → Type 0
  ArePassed method path [] = Unit
  ArePassed method path (route ∷ routes) =
      ((text_eq method route.method ≡ false) ⊎ (route.handler path ≡ some none))
      × ArePassed method path routes

  dispatch_done :
      (method path : Text) (routes : List (Route A)) (a : A)
      → dispatch method path routes (some a) ≡ some (some a)
  unfolding dispatch
  dispatch_done method path [] a = refl
  dispatch_done method path (route ∷ routes) a = dispatch_done method path routes a

  dispatch_first :
      (method path : Text) (before after : List (Route A)) (route : Route A) (a : A)
      → ArePassed method path before
      → text_eq method route.method ≡ true
      → route.handler path ≡ some (some a)
      → dispatch method path (before ++ route ∷ after) none ≡ some (some a)
  unfolding dispatch
  dispatch_first method path [] after route a h m e =
      ground (arith, dispatch_done method path after a)
  dispatch_first method path (r ∷ before) after route a (inl p, h) m e =
      ground (arith, dispatch_first method path before after route a h m e)
  dispatch_first method path (r ∷ before) after route a (inr p, h) m e =
      elim (Bool-cases (text_eq method r.method)) [
        | inl same ↦ ground (arith, dispatch_first method path before after route a h m e)
        | inr other ↦ ground (arith, dispatch_first method path before after route a h m e)
      ]

  dispatch-none :
      (method path : Text) (routes : List (Route A))
      → ArePassed method path routes
      → dispatch method path routes none ≡ some none
  unfolding dispatch
  dispatch-none method path [] h = refl
  dispatch-none method path (r ∷ routes) (inl p, h) =
      ground (arith, dispatch-none method path routes h)
  dispatch-none method path (r ∷ routes) (inr p, h) = elim (Bool-cases (text_eq method r.method)) [
    | inl same ↦ ground (arith, dispatch-none method path routes h)
    | inr other ↦ ground (arith, dispatch-none method path routes h)
  ]

  -- If each branch in front has another method or does not match, and the next one has the request's
  -- method and matches its path, the value of `router!` is that branch's, whatever the branches
  -- behind it would do.
  router_first :
      (request : Request) (before after : List (Route A)) (route : Route A) (default a : A)
      → ArePassed request.method (request_url request) before
      → text_eq request.method route.method ≡ true
      → route.handler (request_url request) ≡ some (some a)
      → router request (before ++ route ∷ after) default ≡ some a
  unfolding router
  router_first request before after route default a h m e =
      ground (arith, dispatch_first request.method (request_url request) before after route a h m e)

  -- Where each branch is passed over, the value of `router!` is the default.
  router_default :
      (request : Request) (routes : List (Route A)) (default : A)
      → ArePassed request.method (request_url request) routes
      → router request routes default ≡ some default
  unfolding router
  router_default request routes default h =
      ground (arith, dispatch-none request.method (request_url request) routes h)
