-- ===== src/Examples/Branches/Values.antt =====
-- What holds of each value that a branch of `router!` can give holds of the value of the macro.
use rouille.Common.{
  ◌≡◌, ◌⊎◌, inl, inr, false, true, Bool-cases, Option, none, some, List, [], ◌∷◌, ◌>>=◌, Bytes,
  Text, text_eq, arith,
}
use rouille.Http.Request.{Request}
use rouille.Routing.{Route, router, dispatch, request_url, or_default}
use rouille.Routing.OldStyle.{Token, check_pattern}
use rouille.Examples.Branches.{branch_with}

-- The value, if there is one, has the property.
abbrev pub IfSome : {A : Type 0} → (A → Type 0) → Option A → Type 0
IfSome P none = Unit
IfSome P (some a) = P a

module _ {A : Type 0} (P : A → Type 0) where
  abbrev pub GivesOnly : Option (Option A) → Type 0
  GivesOnly = IfSome (IfSome P)

  -- Each branch of the method gives only values with the property.
  abbrev pub AreSound : Text → Text → List (Route A) → Type 0
  AreSound method path [] = Unit
  AreSound method path (route ∷ routes) =
      ((text_eq method route.method ≡ false) ⊎ GivesOnly (route.handler path))
      × AreSound method path routes

  after_route :
      (method path : Text) (routes : List (Route A)) (out : Option (Option A))
      → GivesOnly out
      → ((ret : Option A) → IfSome P ret → GivesOnly (dispatch method path routes ret))
      → GivesOnly (elim out [ none ↦ none | some ret ↦ dispatch method path routes ret ])
  after_route method path routes none h k = tt
  after_route method path routes (some ret) h k = k ret h

  step_other :
      (method path : Text) (route : Route A) (routes : List (Route A))
      → text_eq method route.method ≡ false
      → dispatch method path (route ∷ routes) none ≡ dispatch method path routes none
  unfolding dispatch
  step_other method path route routes e = ground (arith, e)

  step_same :
      (method path : Text) (route : Route A) (routes : List (Route A))
      → text_eq method route.method ≡ true
      → dispatch method path (route ∷ routes) none
        ≡ elim (route.handler path) [ none ↦ none | some ret ↦ dispatch method path routes ret ]
  unfolding dispatch
  step_same method path route routes e = ground (arith, e)

  dispatch-GivesOnly :
      (method path : Text) (routes : List (Route A)) (ret : Option A)
      → AreSound method path routes
      → IfSome P ret
      → GivesOnly (dispatch method path routes ret)
  unfolding dispatch
  dispatch-GivesOnly method path [] ret hs h = h
  dispatch-GivesOnly method path (route ∷ routes) (some a) (r, hs) h =
      dispatch-GivesOnly method path routes (some a) hs h
  dispatch-GivesOnly method path (route ∷ routes) none (inl other, hs) h =
      rw (step_other method path route routes other)
        (dispatch-GivesOnly method path routes none hs tt)
  dispatch-GivesOnly method path (route ∷ routes) none (inr only, hs) h =
      elim (Bool-cases (text_eq method route.method)) [
        | inl same ↦ rw (step_same method path route routes same) (
            after_route method path routes (route.handler path) only
              (λ ret g. dispatch-GivesOnly method path routes ret hs g))
        | inr other ↦
            rw (step_other method path route routes other)
              (dispatch-GivesOnly method path routes none hs tt)
      ]

  or_default-IfSome :
      (default : A) (out : Option (Option A))
      → P default
      → GivesOnly out
      → IfSome P (or_default default out)
  or_default-IfSome default none d h = tt
  or_default-IfSome default (some none) d h = d
  or_default-IfSome default (some (some a)) d h = h

  pub router-IfSome :
      (request : Request) (routes : List (Route A)) (default : A)
      → AreSound request.method (request_url request) routes
      → P default
      → IfSome P (router request routes default)
  unfolding router
  router-IfSome request routes default hs d =
      or_default-IfSome default (dispatch request.method (request_url request) routes none) d
        (dispatch-GivesOnly request.method (request_url request) routes none hs tt)

  body-GivesOnly : (out : Option A) → IfSome P out → GivesOnly (out >>= λ a. some (some a))
  body-GivesOnly none h = tt
  body-GivesOnly (some a) h = h

  matched-GivesOnly :
      {B : Type 0} (ps : Option (List B)) (body : List B → Option A)
      → ((bs : List B) → IfSome P (body bs))
      → GivesOnly (elim ps [ none ↦ some none | some bs ↦ body bs >>= λ a. some (some a) ])
  matched-GivesOnly none body h = tt
  matched-GivesOnly (some bs) body h = body-GivesOnly (body bs) (h bs)

  pub branch_with-GivesOnly :
      {B : Type 0} (parse : Text → Option B) (dec : Bytes → Text) (method path : Text)
      (tokens : List Token) (body : List B → Option A)
      → ((bs : List B) → IfSome P (body bs))
      → GivesOnly ((branch_with parse dec method tokens body).handler path)
  branch_with-GivesOnly parse dec method path tokens body h =
      matched-GivesOnly (check_pattern parse dec tokens path) body h
