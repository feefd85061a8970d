-- ===== src/Input/Post/Decoding.antt =====
-- The loops of `post_input!` in src/input/post.rs against the values of each field for itself.
use rouille.Common.{
  ◌≡◌, refl, sym, ◌∙◌, ◌≢◌, Bool-cases, inl, inr, true, false, Option, none, some, List, [], ◌∷◌,
  ◌>>=◌, Text, text_eq, text_eq_iff, arith, retain,
}
use rouille.Common.Results.{
  Result, ok, err, and_then, map_ok, to_option, to_option-map_err, both, both-none, bind-none,
}
use rouille.Input.Post.{PostError, PostFieldError}
use rouille.Input.Post.Form.{
  Field, Slots, no_values, merge, in_field, assign, receive, receive_all, value_or, post_input_of,
}
use rouille.Input.Post.Values.{
  Apart, AllApart, merge_onto, merged, decode_each, slot_value, values, form_values,
}

module _ {I F : Type 0} where
  merged-map_ok :
      (f : Field I F) (r : Result f.Ty (PostFieldError I F)) (vs : List f.Ty)
      → (to_option (in_field f (map_ok some r)) >>= λ slot. merged f slot vs)
        ≡ (to_option r >>= λ u. merge_onto f u vs)
  merged-map_ok f (ok u) vs = refl
  merged-map_ok f (err e) vs = refl

  merged-merge :
      (f : Field I F) (slot : Option f.Ty) (v : f.Ty) (vs : List f.Ty)
      → (to_option (in_field f (merge f slot v)) >>= λ slot'. merged f slot' vs)
        ≡ merged f slot (v ∷ vs)
  merged-merge f none v vs = refl
  merged-merge f (some u) v vs = merged-map_ok f (f.decode.merge_multiple u v) vs

  merged-value_or :
      (f : Field I F) (slot : Option f.Ty) → to_option (value_or f slot) ≡ merged f slot []
  merged-value_or f (some v) = refl
  merged-value_or f none = to_option-map_err _ (f.decode.not_found f.config)

  -- One more value in front, against the merging of the code.
  merged_next :
      (f : Field I F) (slot : Option f.Ty) (v : f.Ty) (vs : Option (List f.Ty))
      → ((vs >>= λ ws. some (v ∷ ws)) >>= merged f slot)
        ≡ (to_option (in_field f (merge f slot v)) >>= λ slot'. vs >>= merged f slot')
  merged_next f slot v none = sym (bind-none (to_option (in_field f (merge f slot v))))
  merged_next f slot v (some vs) = sym (merged-merge f slot v vs)

  merged_result :
      (f : Field I F) (slot : Option f.Ty) (r : Result f.Ty (PostError I F))
      (vs : Option (List f.Ty))
      → ((to_option r >>= λ v. vs >>= λ ws. some (v ∷ ws)) >>= merged f slot) ≡ (
          to_option (and_then r (λ new. in_field f (merge f slot new))) >>= λ slot'.
          vs >>= merged f slot')
  merged_result f slot (ok v) vs = merged_next f slot v vs
  merged_result f slot (err e) vs = refl

  both_results :
      {A B : Type 0} (r : Result A (PostError I F)) (r' : Result B (PostError I F)) (a : Option A)
      (b : Option B)
      → to_option r ≡ a
      → to_option r' ≡ b
      → to_option (and_then r (λ v. map_ok (λ vs. (v, vs)) r')) ≡ both a b
  both_results (ok v) (ok vs) a b e g = ground arith
  both_results (ok v) (err x) a b e g = ground arith
  both_results (err x) r' a b e g = ground arith

  module _ {Item : Type 0} (name_of : Item → Text)
      (decoded : (f : Field I F) → Item → Result f.Ty (PostError I F)) where
    slot_value_same :
        (f : Field I F) (item : Item) (items : List Item) (slot : Option f.Ty)
        → text_eq (name_of item) f.name ≡ true
        → slot_value name_of decoded f slot (item ∷ items) ≡ (
            to_option (assign name_of decoded f item slot) >>= λ slot'.
            slot_value name_of decoded f slot' items)
    slot_value_same f item items slot e = ground (
      arith,
      merged_result f slot (decoded f item)
          (decode_each name_of decoded f (retain (λ i. text_eq (name_of i) f.name) items)),
    )

    slot_value_other :
        (f : Field I F) (item : Item) (items : List Item) (slot : Option f.Ty)
        → text_eq (name_of item) f.name ≡ false
        → slot_value name_of decoded f slot (item ∷ items) ≡ slot_value name_of decoded f slot items
    slot_value_other f item items slot e = ground arith

    other_name :
        (name name' : Text) (item : Item)
        → name' ≢ name
        → text_eq (name_of item) name' ≡ true
        → text_eq (name_of item) name ≡ false
    other_name name name' item ne e = elim (Bool-cases (text_eq (name_of item) name)) [
      | inl same ↦ absurd (ne (sym ((text_eq_iff _ _).0 e) ∙ (text_eq_iff _ _).0 same))
      | inr other ↦ other
    ]

    values-Apart :
        (fs : List (Field I F)) (name : Text) (item : Item) (items : List Item) (slots : Slots fs)
        → Apart name fs
        → text_eq (name_of item) name ≡ true
        → values name_of decoded fs slots (item ∷ items) ≡ values name_of decoded fs slots items
    values-Apart [] name item items slots h e = refl
    values-Apart (f ∷ fs) name item items (slot, slots) (ne, h) e =
        let other = other_name f.name name item ne e in
        ground (
          arith,
          slot_value_other f item items slot other,
          values-Apart fs name item items slots h e,
        )

    received :
        (f : Field I F) (fs : List (Field I F)) (slots : Slots fs) (items : List Item)
        (r : Result (Option f.Ty) (PostError I F))
        → both
            (to_option r >>= λ slot. slot_value name_of decoded f slot items)
            (values name_of decoded fs slots items)
          ≡ (to_option (map_ok (λ slot. (slot, slots)) r) >>= λ all.
              values name_of decoded (f ∷ fs) all items)
    received f fs slots items (ok slot) = refl
    received f fs slots items (err e) = refl

    passed_on :
        (f : Field I F) (fs : List (Field I F)) (slot : Option f.Ty) (items : List Item)
        (r : Result (Slots fs) (PostError I F))
        → both
            (slot_value name_of decoded f slot items)
            (to_option r >>= λ slots. values name_of decoded fs slots items)
          ≡ (to_option (map_ok (λ slots. (slot, slots)) r) >>= λ all.
              values name_of decoded (f ∷ fs) all items)
    passed_on f fs slot items (ok slots) = refl
    passed_on f fs slot items (err e) = both-none (slot_value name_of decoded f slot items)

    values-receive :
        (fs : List (Field I F)) (item : Item) (items : List Item) (slots : Slots fs)
        → AllApart fs
        → values name_of decoded fs slots (item ∷ items) ≡ (
            to_option (receive name_of decoded fs item slots) >>= λ slots'.
            values name_of decoded fs slots' items)
    unfolding receive
    values-receive [] item items slots h = refl
    values-receive (f ∷ fs) item items (slot, slots) (apart, h) =
        elim (Bool-cases (text_eq (name_of item) f.name)) [
          | inl same ↦ ground (
            arith,
            slot_value_same f item items slot same,
            values-Apart fs f.name item items slots apart same,
            received f fs slots items (assign name_of decoded f item slot),
          )
          | inr other ↦ ground (
            arith,
            slot_value_other f item items slot other,
            values-receive fs item items slots h,
            passed_on f fs slot items (receive name_of decoded fs item slots),
          )
        ]

    values-post_input_of :
        (fs : List (Field I F)) (slots : Slots fs)
        → to_option (post_input_of fs slots) ≡ values name_of decoded fs slots []
    unfolding post_input_of
    values-post_input_of [] slots = refl
    values-post_input_of (f ∷ fs) (slot, slots) =
        both_results (value_or f slot) (post_input_of fs slots) (merged f slot [])
          (values name_of decoded fs slots []) (merged-value_or f slot)
          (values-post_input_of fs slots)

    then_rest :
        (fs : List (Field I F)) (items : List Item) (r : Result (Slots fs) (PostError I F))
        → ((slots : Slots fs)
            → to_option (and_then (receive_all name_of decoded fs items slots) (post_input_of fs))
              ≡ values name_of decoded fs slots items)
        → to_option
            (and_then (and_then r (receive_all name_of decoded fs items)) (post_input_of fs))
          ≡ (to_option r >>= λ slots. values name_of decoded fs slots items)
    then_rest fs items (ok slots) k = k slots
    then_rest fs items (err e) k = refl

    -- Item by item and field by field come to the same.
    receive_all-values :
        (fs : List (Field I F)) (items : List Item) (slots : Slots fs)
        → AllApart fs
        → to_option (and_then (receive_all name_of decoded fs items slots) (post_input_of fs))
          ≡ values name_of decoded fs slots items
    unfolding receive_all
    receive_all-values fs [] slots h = values-post_input_of fs slots
    receive_all-values fs (item ∷ items) slots h =
        then_rest fs items (receive name_of decoded fs item slots)
          (λ slots'. receive_all-values fs items slots' h)
        ∙ sym (values-receive fs item items slots h)

    pub receive_all-form_values :
        (fs : List (Field I F)) (items : List Item)
        → AllApart fs
        → to_option
            (and_then (receive_all name_of decoded fs items (no_values fs)) (post_input_of fs))
          ≡ form_values name_of decoded fs items
    receive_all-form_values fs items h = receive_all-values fs items (no_values fs) h
