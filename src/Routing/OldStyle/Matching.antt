-- ===== src/Routing/OldStyle/Matching.antt =====
-- Which paths the old style of `router!` matches: those that its pattern prints.
use rouille.Common.{
  ◌≡◌, refl, Option, none, some, List, [], ◌∷◌, ◌++◌, Text, Bytes, text_eq, append-nil, arith,
  Lacks, split_once_at, split_once-Lacks, strip_prefix-append, ◌⊎◌, inl, inr,
}
use rouille.Common.Utf8.{as_bytes}
use rouille.Routing.OldStyle.{
  Token, slash_param, slash_typed_param, slash_ident, dash, slash, ident, check_pattern, segment,
  bind_value,
}

-- The path of a pattern whose parameters are these texts.
abbrev pub render : List Token → List Text → Text
render [] pieces = []
render (slash ∷ tokens) pieces = b'/' ∷ []
render (slash_param ∷ tokens) [] = []
render (slash_param ∷ tokens) (p ∷ pieces) = b'/' ∷ p ++ render tokens pieces
render (slash_typed_param ∷ tokens) [] = []
render (slash_typed_param ∷ tokens) (p ∷ pieces) = b'/' ∷ p ++ render tokens pieces
render (slash_ident name ∷ tokens) pieces = b'/' ∷ name ++ render tokens pieces
render (dash ∷ tokens) pieces = b'-' ∷ render tokens pieces
render (ident name ∷ tokens) pieces = name ++ render tokens pieces

-- The text ends a segment.
abbrev pub EndsSegment : Text → Type 0
EndsSegment s = (s ≡ []) ⊎ ((t : Text) × (s ≡ b'/' ∷ t))

-- One text without `/` for each parameter, and behind each parameter the end or a `/`.
abbrev pub Fits : List Token → List Text → Type 0
Fits [] [] = Unit
Fits [] (p ∷ pieces) = ⊥
Fits (slash ∷ tokens) [] = Unit
Fits (slash ∷ tokens) (p ∷ pieces) = ⊥
Fits (slash_param ∷ tokens) [] = ⊥
Fits (slash_param ∷ tokens) (p ∷ pieces) =
    Lacks b'/' p × EndsSegment (render tokens pieces) × Fits tokens pieces
Fits (slash_typed_param ∷ tokens) [] = ⊥
Fits (slash_typed_param ∷ tokens) (p ∷ pieces) =
    Lacks b'/' p × EndsSegment (render tokens pieces) × Fits tokens pieces
Fits (slash_ident name ∷ tokens) pieces = Fits tokens pieces
Fits (dash ∷ tokens) pieces = Fits tokens pieces
Fits (ident name ∷ tokens) pieces = Fits tokens pieces

segment-append : (p rest : Text) → Lacks b'/' p → EndsSegment rest → segment (p ++ rest) ≡ (p, rest)
unfolding segment
segment-append p rest h (inl e) = ground (arith, e, append-nil p, split_once-Lacks b'/' p h)
segment-append p rest h (inr (t, e)) = ground (arith, e, split_once_at b'/' p t h)

module _ {P : Type 0} (parse : Text → Option P) (percent_decode_lossy : Bytes → Text) where
  -- What the texts are parsed to; only a parameter with a type is percent-decoded.
  abbrev pub values : List Token → List Text → Option (List P)
  values [] pieces = some []
  values (slash ∷ tokens) pieces = some []
  values (slash_param ∷ tokens) [] = none
  values (slash_param ∷ tokens) (p ∷ pieces) = bind_value (parse p) (values tokens pieces)
  values (slash_typed_param ∷ tokens) [] = none
  values (slash_typed_param ∷ tokens) (p ∷ pieces) =
      bind_value (parse (percent_decode_lossy (as_bytes p))) (values tokens pieces)
  values (slash_ident name ∷ tokens) pieces = values tokens pieces
  values (dash ∷ tokens) pieces = values tokens pieces
  values (ident name ∷ tokens) pieces = values tokens pieces

  -- On the path that a pattern prints from texts that fit its parameters, `check_pattern` gives what
  -- these texts are parsed to: the path matches exactly if each of them can be parsed.
  pub check_pattern-render :
      (tokens : List Token) (pieces : List Text)
      → Fits tokens pieces
      → check_pattern parse percent_decode_lossy tokens (render tokens pieces)
        ≡ values tokens pieces
  unfolding check_pattern text_eq
  check_pattern-render [] [] h = refl
  check_pattern-render [] (p ∷ pieces) h = absurd h
  check_pattern-render (slash_param ∷ tokens) [] h = absurd h
  check_pattern-render (slash_typed_param ∷ tokens) [] h = absurd h
  check_pattern-render (slash ∷ tokens) (p ∷ pieces) h = absurd h
  check_pattern-render (slash ∷ tokens) [] h = refl
  check_pattern-render (slash_param ∷ tokens) (p ∷ pieces) (l, e, h) = ground (
    arith,
    strip_prefix-append (b'/' ∷ []) (p ++ render tokens pieces),
    segment-append p (render tokens pieces) l e,
    check_pattern-render tokens pieces h,
  )
  check_pattern-render (slash_typed_param ∷ tokens) (p ∷ pieces) (l, e, h) = ground (
    arith,
    strip_prefix-append (b'/' ∷ []) (p ++ render tokens pieces),
    segment-append p (render tokens pieces) l e,
    check_pattern-render tokens pieces h,
  )
  check_pattern-render (slash_ident name ∷ tokens) pieces h = ground (
    arith,
    strip_prefix-append (b'/' ∷ name) (render tokens pieces),
    check_pattern-render tokens pieces h,
  )
  check_pattern-render (dash ∷ tokens) pieces h = ground (
    arith,
    strip_prefix-append (b'-' ∷ []) (render tokens pieces),
    check_pattern-render tokens pieces h,
  )
  check_pattern-render (ident name ∷ tokens) pieces h =
      ground (
        arith,
        strip_prefix-append name (render tokens pieces),
        check_pattern-render tokens pieces h,
      )
