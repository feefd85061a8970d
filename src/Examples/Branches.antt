-- ===== src/Examples/Branches.antt =====
-- Branches `(METHOD) (/pattern) => { body }` of `router!` in the old style without parameters, of
-- which the folder examples has many.
pub mod Values
use rouille.Common.{
  ◌≡◌, refl, Bool, true, false, ◌&&◌, if◌then◌else◌, Option, none, some, List, [], ◌∷◌, Bytes, Text,
  text, text_eq, strip_prefix, is_empty, arith, ◌>>=◌,
}
use rouille.Http.Request.{Request}
use rouille.Routing.{Outcome, Route, request_url}
use rouille.Routing.OldStyle.{Token, slash, slash_ident, check_pattern}

abbrev pub branch : {A : Type 0} → (Bytes → Text) → Text → List Token → A → Route A
branch percent_decode_lossy method tokens body = record {
  method = method;
  handler = λ url.
      some (
        check_pattern {P = Text} (λ s. some s) percent_decode_lossy tokens url >>= λ ps. some body);
}

-- The request has this method and this path.
abbrev pub goes_to : Text → Text → Request → Bool
goes_to method path request = text_eq request.method method && text_eq (request_url request) path

pub strip_prefix-text_eq :
    {A : Type 0} (p url : Text) (a : A)
    → elim (strip_prefix p url) [ none ↦ none | some rest ↦ if is_empty rest then some a else none ]
      ≡ (if text_eq url p then some a else none)
unfolding strip_prefix text_eq
strip_prefix-text_eq [] [] a = refl
strip_prefix-text_eq [] (c ∷ url) a = refl
strip_prefix-text_eq (c ∷ p) [] a = refl
strip_prefix-text_eq (c ∷ p) (d ∷ url) a = ground (arith, strip_prefix-text_eq p url a)

-- A branch of one name is taken by the path of this name.
pub branch-ident :
    {A : Type 0} (percent_decode_lossy : Bytes → Text) (method name path : Text) (body : A)
    → (branch percent_decode_lossy method (slash_ident name ∷ []) body).handler path
      ≡ some (if text_eq path (b'/' ∷ name) then some body else none)
unfolding check_pattern
branch-ident percent_decode_lossy method name path body =
    ground (arith, strip_prefix-text_eq {A = List Text} (b'/' ∷ name) path [])

-- A branch with parameters of one type. A body that panics gives `none`.
abbrev pub branch_with :
    {P A : Type 0}
    → (Text → Option P)
    → (Bytes → Text)
    → Text
    → List Token
    → (List P → Option A)
    → Route A
branch_with parse percent_decode_lossy method tokens body = record {
  method = method;
  handler = λ url. elim (check_pattern parse percent_decode_lossy tokens url) [
    | none ↦ some none
    | some ps ↦ body ps >>= λ a. some (some a)
  ];
}
