-- ===== src/Input/Post/Requests.antt =====
-- `post_input!` of src/input/post.rs on a whole request.
use rouille.Common.{
  ◌≡◌, refl, ap, sym, ◌∙◌, if◌then◌else◌, true, false, Bool-cases, inl, inr, Option, none, some,
  List, [], ◌∷◌, ◌++◌, ◌>>=◌, map, append-nil, append_assoc, Bytes, Text, text, text_eq, arith,
  retain,
}
use rouille.Common.Results.{Result, ok, err, to_option, map_ok, both}
use rouille.Http.Body.{read_to_end, Reader}
use rouille.Http.Request.{Request, Bodies, header}
use rouille.Input.Multipart.{Multipart, get_multipart_input, ok as multipart}
use rouille.Input.Post.{PostFieldError, DecodePostField, read_body, urlencoded_type}
use rouille.Input.Post.Fields.{decode_vec}
use rouille.Input.Post.Form.{
  in_field, Field, Entry, post_input, from_urlencoded, from_multipart, decode_value, decode_entry,
  name_of_pair, name_of_entry,
}
use rouille.Input.Post.Values.{AllApart, form_values, merge_onto, decode_each, merged}
use rouille.Input.Post.Decoding.{receive_all-form_values}

module _ {I F C A : Type 0} (t : DecodePostField I F C A) (config : C) (name : Text) where
  -- A field of the type `Vec<T>`.
  abbrev pub vec_field : Field I F
  vec_field = record {
    name = name;
    Config = C;
    config = config;
    Ty = List A;
    decode = decode_vec t;
  }

  -- The values of all pairs of the name, in their order, if each of them can be decoded.
  abbrev each_value : List (Text × Text) → Option (List A)
  each_value [] = some []
  each_value ((key, value) ∷ pairs) =
      let rest = each_value pairs in
      if text_eq key name
      then (to_option (t.from_field config value) >>= λ v. rest >>= λ vs. some (v ∷ vs))
      else rest

  abbrev single : A → List A
  single a = a ∷ []

  one_more :
      (r : Result A (PostFieldError I F)) (rest : Option (List A))
      → (to_option (in_field vec_field (map_ok single r)) >>= λ v.
          (rest >>= λ vs. some (map single vs)) >>= λ vs. some (v ∷ vs))
        ≡ ((to_option r >>= λ v. rest >>= λ vs. some (v ∷ vs)) >>= λ vs. some (map single vs))
  one_more (ok v) none = refl
  one_more (ok v) (some vs) = refl
  one_more (err e) rest = refl

  decode_each-each_value :
      (pairs : List (Text × Text))
      → decode_each name_of_pair decode_value vec_field
          (retain (λ pair. text_eq (name_of_pair pair) name) pairs)
        ≡ (each_value pairs >>= λ vs. some (map single vs))
  decode_each-each_value [] = refl
  decode_each-each_value ((key, value) ∷ pairs) = elim (Bool-cases (text_eq key name)) [
    | inl same ↦ ground (
      arith,
      decode_each-each_value pairs,
      one_more (t.from_field config value) (each_value pairs),
    )
    | inr other ↦ ground (arith, decode_each-each_value pairs)
  ]

  merge_onto-singles : (vs ws : List A) → merge_onto vec_field vs (map single ws) ≡ some (vs ++ ws)
  merge_onto-singles vs [] = ap some (sym (append-nil vs))
  merge_onto-singles vs (w ∷ ws) =
      merge_onto-singles (vs ++ w ∷ []) ws ∙ ap some (append_assoc vs (w ∷ []) ws)

  merged-singles : (vs : List A) → merged vec_field none (map single vs) ≡ some vs
  merged-singles [] = refl
  merged-singles (v ∷ vs) = merge_onto-singles (v ∷ []) vs

  merged_each :
      (vs : Option (List A)) → ((vs >>= λ ws. some (map single ws)) >>= merged vec_field none) ≡ vs
  merged_each none = refl
  merged_each (some vs) = merged-singles vs

module _ {I F : Type 0} (parse : Bytes → List (Text × Text))
    (entries : Multipart → List Entry) where
  -- For fields of different names and a body of the type application/x-www-form-urlencoded that is
  -- still there and can be read, `post_input!` succeeds exactly if each field for itself does, and
  -- gives their values: a field's values among the parsed pairs are decoded and merged from left to
  -- right, and a field without one has what `not_found` gives.
  pub post_input_urlencoded :
      (fs : List (Field I F)) (request : Request) (bodies : Bodies) (body : Reader) (bytes : Bytes)
      → AllApart fs
      → urlencoded_type (header request (text "Content-Type")) ≡ true
      → bodies request.shared_data ≡ some body
      → read_to_end body ≡ some bytes
      → to_option (post_input parse entries fs request bodies).0
        ≡ form_values name_of_pair decode_value fs (parse bytes)
  unfolding post_input from_urlencoded read_body
  post_input_urlencoded fs request bodies body bytes h e there all =
      ground (arith, receive_all-form_values name_of_pair decode_value fs (parse bytes) h)

  -- The same for a multipart body, whose entries are texts and files.
  post_input_entries :
      (fs : List (Field I F)) (request : Request) (bodies : Bodies) (m : Multipart)
      → AllApart fs
      → urlencoded_type (header request (text "Content-Type")) ≡ false
      → (get_multipart_input request bodies).0 ≡ multipart m
      → to_option (post_input parse entries fs request bodies).0
        ≡ form_values name_of_entry decode_entry fs (entries m)
  unfolding post_input from_multipart
  post_input_entries fs request bodies m h e there =
      ground (arith, receive_all-form_values name_of_entry decode_entry fs (entries m) h)

  -- For a single field of the type Vec<T> and a body of the type application/x-www-form-urlencoded
  -- that is still there and can be read, `post_input!` gives the values of all pairs of the
  -- field's name in the order of the body, and it succeeds exactly if each of them can be decoded.
  pub post_input_vec :
      {C A : Type 0} (t : DecodePostField I F C A) (config : C) (name : Text) (request : Request)
      (bodies : Bodies) (body : Reader) (bytes : Bytes)
      → urlencoded_type (header request (text "Content-Type")) ≡ true
      → bodies request.shared_data ≡ some body
      → read_to_end body ≡ some bytes
      → to_option (post_input parse entries (vec_field t config name ∷ []) request bodies).0
        ≡ both (each_value t config name (parse bytes)) (some tt)
  post_input_vec t config name request bodies body bytes e there all =
      post_input_urlencoded (vec_field t config name ∷ []) request bodies body bytes (tt, tt) e
        there all
      ∙ ap (λ vs. both vs (some tt))
          (ap (λ vs. vs >>= merged (vec_field t config name) none)
              (decode_each-each_value t config name (parse bytes))
            ∙ merged_each t config name (each_value t config name (parse bytes)))
