-- ===== src/Routing/OldStyle.antt =====
-- The patterns `(/a/{b}/{c: T})` of `router!`, the rules `__check_pattern` of src/router.rs.
pub mod Matching
pub mod Soundness
use rouille.Common.{
  ◌≡◌, refl, Option, none, some, List, [], ◌∷◌, ◌++◌, if◌then◌else◌, Text, text, Bytes, text_eq,
  split_once, strip_prefix, is_empty, drop, length, arith, Lacks, split_once_at, split_once-Lacks,
  strip_prefix-append,
}
use rouille.Common.Utf8.{as_bytes}
use rouille.Routing.{Outcome}

-- The tokens of a pattern.
pub data Token : Type 0 where
  slash_param : Token
  slash_typed_param : Token
  slash_ident : Text → Token
  dash : Token
  slash : Token
  ident : Text → Token

abbrev pub pat_end : Text × Option Text → Text × Text
pat_end (before, none) = (before, [])
pat_end (before, some after) = (before, b'/' ∷ after)

-- `url[0 .. pat_end]` and `&url[pat_end..]`
unfoldable pub segment : Text → Text × Text
segment url = pat_end (split_once b'/' url)

module _ {P : Type 0} where
  abbrev cons_value : P → Option (List P) → Option (List P)
  cons_value p none = none
  cons_value p (some ps) = some (p ∷ ps)

  abbrev pub bind_value : Option P → Option (List P) → Option (List P)
  bind_value none rest = none
  bind_value (some p) rest = cons_value p rest

-- The parameters are values of one type of the model, that of the handler's arguments.
-- `parse` stands for `str::parse`, and the other parameter for
-- `percent_decode(…).decode_utf8_lossy()`.
module _ {P : Type 0} (parse : Text → Option P) (percent_decode_lossy : Bytes → Text) where
  -- The values of the parameters, if the path matches. A `/` that is not the last token has no
  -- rule.
  unfoldable pub check_pattern : List Token → Text → Option (List P)
  unfolding segment
  check_pattern [] url = if is_empty url then some [] else none
  check_pattern (slash ∷ tokens) url = if text_eq url (b'/' ∷ []) then some [] else none
  check_pattern (slash_param ∷ tokens) url = elim (strip_prefix (b'/' ∷ []) url) [
    | none ↦ none
    | some stripped ↦
        let (seg, rest_url) = segment (drop 1 url) in
        bind_value (parse seg) (check_pattern tokens rest_url)
  ]
  check_pattern (slash_typed_param ∷ tokens) url = elim (strip_prefix (b'/' ∷ []) url) [
    | none ↦ none
    | some stripped ↦
        let (seg, rest_url) = segment (drop 1 url) in
        bind_value (parse (percent_decode_lossy (as_bytes seg))) (check_pattern tokens rest_url)
  ]
  check_pattern (slash_ident name ∷ tokens) url = elim (strip_prefix (b'/' ∷ name) url) [
    | none ↦ none
    | some rest_url ↦ check_pattern tokens rest_url
  ]
  check_pattern (dash ∷ tokens) url = elim (strip_prefix (b'-' ∷ []) url) [
    | none ↦ none
    | some rest_url ↦ check_pattern tokens rest_url
  ]
  check_pattern (ident name ∷ tokens) url = elim (strip_prefix name url) [
    | none ↦ none
    | some rest_url ↦ check_pattern tokens rest_url
  ]
