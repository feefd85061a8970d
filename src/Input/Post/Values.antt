-- ===== src/Input/Post/Values.antt =====
-- What `post_input!` of src/input/post.rs is to give: each field for itself, from the items of its
-- name, whose values are merged from left to right.
use rouille.Common.{◌≢◌, Option, none, some, List, [], ◌∷◌, ◌>>=◌, Text, text_eq, retain}
use rouille.Common.Results.{Result, to_option, both}
use rouille.Input.Post.{PostError}
use rouille.Input.Post.Form.{Field, Slots, PostInput, no_values}

-- No field has the name.
abbrev pub Apart : {I F : Type 0} → Text → List (Field I F) → Type 0
Apart name [] = Unit
Apart name (f ∷ fs) = (name ≢ f.name) × Apart name fs

-- The fields have different names, as the fields of a struct do.
abbrev pub AllApart : {I F : Type 0} → List (Field I F) → Type 0
AllApart [] = Unit
AllApart (f ∷ fs) = Apart f.name fs × AllApart fs

module _ {I F : Type 0} where
  -- The values of a field merged from left to right.
  abbrev pub merge_onto : (f : Field I F) → f.Ty → List f.Ty → Option f.Ty
  merge_onto f v [] = some v
  merge_onto f v (w ∷ ws) = to_option (f.decode.merge_multiple v w) >>= λ u. merge_onto f u ws

  -- The same with what the field has so far.
  abbrev pub merged : (f : Field I F) → Option f.Ty → List f.Ty → Option f.Ty
  merged f (some v) vs = merge_onto f v vs
  merged f none (v ∷ vs) = merge_onto f v vs
  merged f none [] = to_option (f.decode.not_found f.config)

  module _ {Item : Type 0} (name_of : Item → Text)
      (decoded : (f : Field I F) → Item → Result f.Ty (PostError I F)) where
    -- The values of the items, in their order.
    abbrev pub decode_each : (f : Field I F) → List Item → Option (List f.Ty)
    decode_each f [] = some []
    decode_each f (item ∷ items) =
        to_option (decoded f item) >>= λ v. decode_each f items >>= λ vs. some (v ∷ vs)

    -- The value of a field, from the items of its name and from them only.
    abbrev pub slot_value : (f : Field I F) → Option f.Ty → List Item → Option f.Ty
    slot_value f slot items =
        decode_each f (retain (λ item. text_eq (name_of item) f.name) items) >>= merged f slot

    abbrev pub values : (fs : List (Field I F)) → Slots fs → List Item → Option (PostInput fs)
    values [] slots items = some tt
    values (f ∷ fs) (slot, slots) items = both (slot_value f slot items) (values fs slots items)

    -- The values of all fields, each for itself.
    abbrev pub form_values : (fs : List (Field I F)) → List Item → Option (PostInput fs)
    form_values fs items = values fs (no_values fs) items
