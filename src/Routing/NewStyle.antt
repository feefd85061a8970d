-- ===== src/Routing/NewStyle.antt =====
-- The url_patterns `["/a/{b}", b: T]` of `router!`, src/router.rs.
use rouille.Common.{
  true, false, not, Option, none, some, List, [], ◌∷◌, if◌then◌else◌, ◌==◌, Text, text, Bytes,
  text_eq, split, strip_prefix, length, map,
}
use mathlib.Core.List.{reverse}
use rouille.Common.Utf8.{as_bytes}
use rouille.Routing.{Outcome}

abbrev reversed : Option Text → Option Text
reversed none = none
reversed (some s) = some (reverse s)

-- `str::strip_suffix`
abbrev strip_suffix : Text → Text → Option Text
strip_suffix p s = reversed (strip_prefix (reverse p) (reverse s))

-- The name in a segment `{name}`.
unfoldable pub param_name : Text → Option Text
param_name desired = elim (strip_prefix (text "{") desired) [
  | none ↦ none
  | some d ↦ strip_suffix (text "}") d
]

-- A declared parameter: the identifier, and `parse` at its type. Parameters are values of one type
-- of the model.
pub record Param (P : Type 0) : Type 0 where
  pub identifier : Text
  pub parse : Text → Option P

-- The fields of `RouilleUrlParams`, by declared parameter.
abbrev RouilleUrlParams : Type 0 → Type 0
RouilleUrlParams P = List (Param P × Option P)

-- The parameter stands for `percent_decode(…).decode_utf8_lossy()`.
module _ {P : Type 0} (percent_decode_lossy : Bytes → Text) where
  unfoldable pub new : List (Param P) → RouilleUrlParams P
  new [] = []
  new (p ∷ params) = (p, none) ∷ new params

  abbrev cons_field :
      Param P × Option P → Outcome (RouilleUrlParams P) → Outcome (RouilleUrlParams P)
  cons_field f none = none
  cons_field f (some none) = some none
  cons_field f (some (some fields)) = some (some (f ∷ fields))

  abbrev bind_url_param : Param P → RouilleUrlParams P → Option P → Outcome (RouilleUrlParams P)
  bind_url_param p fields none = some none
  bind_url_param p fields (some value) = some (some ((p, some value) ∷ fields))

  -- `__insert_param`: the outer `none` is the panic on an unknown name, the inner one the early
  -- `return None` where the value does not parse.
  unfoldable insert_param : Text → Text → RouilleUrlParams P → Outcome (RouilleUrlParams P)
  insert_param key actual [] = none
  insert_param key actual ((p, field) ∷ fields) = elim (text_eq key p.identifier) [
    | true ↦ bind_url_param p fields (p.parse actual)
    | false ↦ cons_field (p, field) (insert_param key actual fields)
  ]

  -- The loop over the segments of the path and of the url_pattern.
  unfoldable bind_segments :
      List Text → List Text → RouilleUrlParams P → Outcome (RouilleUrlParams P)
  unfolding param_name insert_param
  bind_segments (actual ∷ request_url) (desired ∷ url_pattern) fields = elim (param_name desired) [
    | some key ↦ elim (insert_param key actual fields) [
      | none ↦ none
      | some none ↦ some none
      | some (some inserted) ↦ bind_segments request_url url_pattern inserted
    ]
    | none ↦ elim (text_eq actual desired) [
      | true ↦ bind_segments request_url url_pattern fields
      | false ↦ some none
    ]
  ]
  bind_segments _ _ fields = some (some fields)

  abbrev cons_argument : P → Option (List P) → Option (List P)
  cons_argument p none = none
  cons_argument p (some ps) = some (p ∷ ps)

  -- `__build_resp` and `__bind_param`: the handler's arguments; `none` is the panic on a parameter
  -- that the url_pattern does not name.
  unfoldable build_resp : RouilleUrlParams P → Option (List P)
  build_resp [] = some []
  build_resp ((p, none) ∷ fields) = none
  build_resp ((p, some value) ∷ fields) = cons_argument value (build_resp fields)

  abbrev matched : Option (List P) → Outcome (List P)
  matched none = none
  matched (some ps) = some (some ps)

  -- `__check_parse_pattern`
  unfoldable check_parse_pattern : Text → Text → List (Param P) → Outcome (List P)
  unfolding bind_segments build_resp new
  check_parse_pattern path url_pattern params =
      let request_url = map (λ s. percent_decode_lossy (as_bytes s)) (split b'/' path) in
      let url_pattern = split b'/' url_pattern in
      if not (length request_url == length url_pattern)
      then some none
      else elim (bind_segments request_url url_pattern (new params)) [
        | none ↦ none
        | some none ↦ some none
        | some (some fields) ↦ matched (build_resp fields)
      ]

  -- `__param_dispatch`: without parameters the path is compared as it stands.
  unfoldable param_dispatch : Text → Text → List (Param P) → Outcome (List P)
  unfolding check_parse_pattern
  param_dispatch path url_pattern [] =
      if text_eq path url_pattern then some (some []) else some none
  param_dispatch path url_pattern (p ∷ params) = check_parse_pattern path url_pattern (p ∷ params)
