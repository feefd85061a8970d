-- ===== src/Input/Post/Form.antt =====
-- The macro `post_input!` of src/input/post.rs. The fields that it is given are a list, the
-- variables and the struct that it declares are tuples with a place for each of them.
use rouille.Common.{
  Bool, if◌then◌else◌, Option, none, some, List, [], ◌∷◌, ◌>>=◌, Bytes, Text, text, text_eq,
}
use rouille.Common.Utf8.{from_utf8}
use rouille.Common.Results.{Result, ok, err, and_then, map_ok, ok_or, map_err}
use rouille.Http.Body.{Reader, read_to_end}
use rouille.Http.Request.{Request, Bodies, header, take_data}
use rouille.Input.Multipart.{
  Multipart, MultipartResult, get_multipart_input, ok as multipart, err as no_multipart,
  wrong_content_type as not_multipart, body_already_extracted as body_taken,
}
use rouille.Input.Post.{
  PostError, PostFieldError, field, io_error, wrong_content_type, body_already_extracted,
  DecodePostField, read_body, urlencoded_type,
}

-- `$field: $ty {$config}`
pub record Field (I F : Type 0) : Type 1 where
  pub name : Text
  pub Config : Type 0
  pub config : Config
  pub Ty : Type 0
  pub decode : DecodePostField I F Config Ty

-- An entry of a multipart body. What the file's type looks like is its text.
pub record Entry : Type 0 where
  pub name : Text
  pub is_text : Bool
  pub filename : Option Text
  pub content_type : Option Text
  pub data_reader : Reader

-- `read_to_string`
abbrev read_to_string : Reader → Option Text
read_to_string r = read_to_end r >>= from_utf8

-- `map(|m| m.to_string()).unwrap_or_else(String::new)`
abbrev mime_of : Option Text → Text
mime_of none = []
mime_of (some m) = m

abbrev pub name_of_pair : Text × Text → Text
name_of_pair (name, value) = name

abbrev pub name_of_entry : Entry → Text
name_of_entry entry = entry.name

module _ {I F : Type 0} where
  -- `let mut $field: Option<$ty>` for each field
  abbrev pub Slots : List (Field I F) → Type 0
  Slots [] = Unit
  Slots (f ∷ fs) = Option f.Ty × Slots fs

  -- `struct PostInput`
  abbrev pub PostInput : List (Field I F) → Type 0
  PostInput [] = Unit
  PostInput (f ∷ fs) = f.Ty × PostInput fs

  abbrev pub no_values : (fs : List (Field I F)) → Slots fs
  no_values [] = tt
  no_values (f ∷ fs) = (none, no_values fs)

  abbrev pub merge :
      (f : Field I F) → Option f.Ty → f.Ty → Result (Option f.Ty) (PostFieldError I F)
  merge f none new = ok (some new)
  merge f (some extracted) new = map_ok some (f.decode.merge_multiple extracted new)

  -- `Err(err) => return Err(PostError::Field { … })`
  abbrev pub in_field :
      {A : Type 0} → (f : Field I F) → Result A (PostFieldError I F) → Result A (PostError I F)
  in_field f = map_err (field f.name)

  abbrev pub decode_value : (f : Field I F) → Text × Text → Result f.Ty (PostError I F)
  decode_value f (name, value) = in_field f (f.decode.from_field f.config value)

  abbrev pub decode_entry : (f : Field I F) → Entry → Result f.Ty (PostError I F)
  decode_entry f entry =
      if entry.is_text
      then and_then (ok_or io_error (read_to_string entry.data_reader))
          (λ string. in_field f (f.decode.from_field f.config string))
      else in_field f (
          f.decode.from_file f.config entry.data_reader entry.filename (mime_of entry.content_type))

  -- The loops over the pairs and over the entries, which differ in the name and the decoding of an
  -- item.
  module _ {Item : Type 0} (name_of : Item → Text)
      (decoded : (f : Field I F) → Item → Result f.Ty (PostError I F)) where
    abbrev pub assign : (f : Field I F) → Item → Option f.Ty → Result (Option f.Ty) (PostError I F)
    assign f item slot = and_then (decoded f item) (λ new. in_field f (merge f slot new))

    -- The first field of the item's name takes it; `continue` is the end of the recursion.
    unfoldable pub receive :
        (fs : List (Field I F)) → Item → Slots fs → Result (Slots fs) (PostError I F)
    receive [] item slots = ok slots
    receive (f ∷ fs) item (slot, slots) =
        let rest = receive fs item slots in
        if text_eq (name_of item) f.name
        then map_ok (λ slot'. (slot', slots)) (assign f item slot)
        else map_ok (λ slots'. (slot, slots')) rest

    unfoldable pub receive_all :
        (fs : List (Field I F)) → List Item → Slots fs → Result (Slots fs) (PostError I F)
    receive_all fs [] slots = ok slots
    receive_all fs (item ∷ items) slots = and_then (receive fs item slots) (receive_all fs items)

  abbrev pub value_or : (f : Field I F) → Option f.Ty → Result f.Ty (PostError I F)
  value_or f (some v) = ok v
  value_or f none = in_field f (f.decode.not_found f.config)

  -- `Ok(PostInput { … })`
  unfoldable pub post_input_of :
      (fs : List (Field I F)) → Slots fs → Result (PostInput fs) (PostError I F)
  post_input_of [] slots = ok tt
  post_input_of (f ∷ fs) (slot, slots) =
      let rest = post_input_of fs slots in
      and_then (value_or f slot) (λ v. map_ok (λ vs. (v, vs)) rest)

  -- `form_urlencoded::parse`, and the entries that `Multipart::next` gives
  module _ (parse : Bytes → List (Text × Text)) (entries : Multipart → List Entry) where
    unfoldable pub from_urlencoded :
        (fs : List (Field I F)) → Option Reader → Result (PostInput fs) (PostError I F)
    unfolding receive_all read_body post_input_of
    from_urlencoded fs body = and_then (read_body body) (λ bytes.
        and_then (receive_all name_of_pair decode_value fs (parse bytes) (no_values fs))
          (post_input_of fs))

    unfoldable pub from_multipart :
        (fs : List (Field I F)) → MultipartResult → Result (PostInput fs) (PostError I F)
    unfolding receive_all post_input_of
    from_multipart fs (no_multipart not_multipart) = err wrong_content_type
    from_multipart fs (no_multipart body_taken) = err body_already_extracted
    from_multipart fs (multipart m) =
        and_then (receive_all name_of_entry decode_entry fs (entries m) (no_values fs))
          (post_input_of fs)

    unfoldable pub post_input :
        (fs : List (Field I F)) → Request → Bodies → Result (PostInput fs) (PostError I F) × Bodies
    unfolding take_data from_urlencoded from_multipart get_multipart_input
    post_input fs request bodies =
        let (body, rest) = take_data request bodies in
        let (result, rest') = get_multipart_input request bodies in
        if urlencoded_type (header request (text "Content-Type"))
        then (from_urlencoded fs body, rest)
        else (from_multipart fs result, rest')
