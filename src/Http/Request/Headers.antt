-- ===== src/Http/Request/Headers.antt =====
-- `Request::header` of src/lib.rs: the first header of a name, in whatever case.
use rouille.Common.{
  ◌↔◌, ◌≡◌, refl, true, false, Option, none, some, List, [], ◌∷◌, ◌++◌, Text, arith, find,
  eq_ignore_ascii_case, Bool-cases, inl, inr,
}
use rouille.Http.Request.{Request, header, header_value}

-- No header has the name.
abbrev IsWithout : Text → List (Text × Text) → Type 0
IsWithout key [] = Unit
IsWithout key ((k, v) ∷ hs) = (eq_ignore_ascii_case k key ≡ false) × IsWithout key hs

find_lem :
    (key k v : Text) (before after : List (Text × Text))
    → IsWithout key before
    → eq_ignore_ascii_case k key ≡ true
    → find (λ kv. eq_ignore_ascii_case kv.0 key) (before ++ (k, v) ∷ after) ≡ some (k, v)
find_lem key k v [] after h e = ground arith
find_lem key k v ((j, w) ∷ before) after (ne, h) e =
    ground (arith, find_lem key k v before after h e)

find-none :
    (key : Text) (hs : List (Text × Text))
    → IsWithout key hs
    → find (λ kv. eq_ignore_ascii_case kv.0 key) hs ≡ none
find-none key [] h = refl
find-none key ((j, w) ∷ hs) (ne, h) = ground (arith, find-none key hs h)

-- The header that `header` gives: behind headers of other names, with a name that is equal but for
-- the case of ASCII letters.
pub record IsFirst (key value : Text) (hs : List (Text × Text)) : Type 0 where
  pub before : List (Text × Text)
  pub spelling : Text
  pub after : List (Text × Text)
  pub splits : hs ≡ before ++ (spelling, value) ∷ after
  pub without : IsWithout key before
  pub matching : eq_ignore_ascii_case spelling key ≡ true

find-IsFirst :
    (key k value : Text) (hs : List (Text × Text))
    → find (λ kv. eq_ignore_ascii_case kv.0 key) hs ≡ some (k, value)
    → IsFirst key value hs
find-IsFirst key k value [] e = cc
find-IsFirst key k value ((j, w) ∷ hs) e = elim (Bool-cases (eq_ignore_ascii_case j key)) [
  | inl same ↦ record {
    before = [];
    spelling = j;
    after = hs;
    splits = ground arith;
    without = tt;
    matching = same;
  }
  | inr other ↦
      let f = find-IsFirst key k value hs (ground arith) in
      record {
        before = (j, w) ∷ f.before;
        spelling = f.spelling;
        after = f.after;
        splits = ground (arith, f.splits);
        without = (other, f.without);
        matching = f.matching;
      }
]

value_of-IsFirst :
    (key value : Text) (hs : List (Text × Text)) (found : Option (Text × Text))
    → find (λ kv. eq_ignore_ascii_case kv.0 key) hs ≡ found
    → header_value found ≡ some value
    → IsFirst key value hs
value_of-IsFirst key value hs none e f = cc
value_of-IsFirst key value hs (some (k, v)) e f = find-IsFirst key k value hs (ground arith)

-- `header` gives a value exactly if it is that of the first header whose name is equal but for the
-- case of ASCII letters.
pub header_iff :
    (r : Request) (key value : Text) → (header r key ≡ some value) ↔ IsFirst key value r.headers
unfolding header
header_iff r key value = (
  λ e. value_of-IsFirst key value r.headers _ refl e,
  λ f.
      ground (arith, f.splits, find_lem key f.spelling value f.before f.after f.without f.matching),
)
