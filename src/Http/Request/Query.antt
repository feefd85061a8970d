-- ===== src/Http/Request/Query.antt =====
-- The parameters of the query (`get_param` of src/lib.rs).
use rouille.Common.{
  ◌≡◌, refl, ℕ, true, false, some, ◌++◌, List, [], ◌∷◌, Bytes, Text, arith, starts_with, split,
  find, replace_char, strip_prefix-append, Lacks, split_at, split-Lacks, append_assoc, append-nil,
}
use rouille.Common.Utf8.{as_bytes}
use rouille.Http.Request.{Request, get_param, raw_query_string, wanted_pair}

-- No pair has the name.
abbrev AreOthers : Text → List Text → Type 0
AreOthers name [] = Unit
AreOthers name (pair ∷ pairs) = (wanted_pair name pair ≡ false) × AreOthers name pairs

-- The pairs, joined by `&`, in front of a text.
abbrev pub joined : List Text → Text → Text
joined [] after = after
joined (pair ∷ pairs) after = pair ++ b'&' ∷ joined pairs after

abbrev AllLack : ℕ → List Text → Type 0
AllLack sep [] = Unit
AllLack sep (pair ∷ pairs) = Lacks sep pair × AllLack sep pairs

split-joined :
    (pairs : List Text) (after : Text)
    → AllLack b'&' pairs
    → split b'&' (joined pairs after) ≡ pairs ++ split b'&' after
split-joined [] after h = refl
split-joined (pair ∷ pairs) after (l, h) =
    ground (arith, split_at b'&' pair (joined pairs after) l, split-joined pairs after h)

find_others :
    (name : Text) (pairs : List Text) (pair : Text) (after : List Text)
    → AreOthers name pairs
    → wanted_pair name pair ≡ true
    → find (wanted_pair name) (pairs ++ pair ∷ after) ≡ some pair
find_others name [] pair after h e = ground arith
find_others name (p ∷ pairs) pair after (o, h) e =
    ground (arith, find_others name pairs pair after h e)

wanted_own : (name value : Text) → wanted_pair name (name ++ b'=' ∷ value) ≡ true
unfolding starts_with
wanted_own name value =
    let begins = strip_prefix-append (name ++ b'=' ∷ []) value in
    let regrouped = append_assoc name (b'=' ∷ []) value in ground arith

-- Pairs without `&` that do not have the name stand in front of `name=value`, the last pair of the
-- query, in which the name and the value have no `=` and there is no `&`: `get_param` gives
-- the value, with `+` read as a space and then percent-decoded.
pub get_param_first :
    (decode : Bytes → Text) (r : Request) (name value : Text) (pairs : List Text)
    → AllLack b'&' pairs
    → AreOthers name pairs
    → Lacks b'=' name
    → Lacks b'&' (name ++ b'=' ∷ value)
    → Lacks b'=' value
    → raw_query_string r ≡ joined pairs (name ++ b'=' ∷ value)
    → get_param decode r name ≡ some (decode (as_bytes (replace_char b'+' b' ' value)))
unfolding get_param
get_param_first decode r name value pairs h o n l v e =
    let pair = name ++ b'=' ∷ value in
    let found = find_others name pairs pair [] o (wanted_own name value) in
    let pieces = split-joined pairs pair h in
    let last = split-Lacks b'&' pair l in
    let halves = split_at b'=' name value n in
    let second = split-Lacks b'=' value v in ground (arith, append-nil pairs)
