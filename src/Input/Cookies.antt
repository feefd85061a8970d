-- ===== src/Input/Cookies.antt =====
-- The `Cookie` header, src/input/cookies.rs.
pub mod RoundTrip
use rouille.Common.{
  Option, none, some, List, [], ◌∷◌, Text, text, split, split_once, trim, trim_matches, ◌==◌,
}
use rouille.Http.Request.{Request, header}

-- `CookiesIter`: the pieces that are left.
abbrev CookiesIter : Type 0
CookiesIter = List Text

unfoldable pub cookies : Request → CookiesIter
cookies request = elim (header request (text "Cookie")) [
  | none ↦ split b';' []
  | some header ↦ split b';' header
]

-- `CookiesIter::next`; a piece without `=` is passed over.
unfoldable pub next : CookiesIter → Option ((Text × Text) × CookiesIter)
next [] = none
next (cookie ∷ iter) =
    let (key, after) = split_once b'=' cookie in
    elim after [
      | none ↦ next iter
      | some value ↦ some ((trim key, trim_matches (λ c. c == b'"') (trim value)), iter)
    ]

abbrev yielded : Text × Option Text → List (Text × Text) → List (Text × Text)
yielded (key, none) rest = rest
yielded (key, some value) rest = (trim key, trim_matches (λ c. c == b'"') (trim value)) ∷ rest

-- All that the iterator yields.
unfoldable pub collect : CookiesIter → List (Text × Text)
collect [] = []
collect (cookie ∷ iter) = yielded (split_once b'=' cookie) (collect iter)
