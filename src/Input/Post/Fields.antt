-- ===== src/Input/Post/Fields.antt =====
-- The implementations of `DecodePostField` in src/input/post.rs.
use rouille.Common.{Bool, true, false, ◌||◌, Option, none, some, List, [], ◌∷◌, ◌++◌, Bytes, Text}
use rouille.Common.Results.{Result, ok, err, map_ok, ok_or, map_err}
use rouille.Http.Body.{read_to_end}
use rouille.Input.Post.{
  PostFieldError, io_error, wrong_field_type, wrong_data_type_int, wrong_data_type_float,
  DecodePostField, default_merge_multiple, default_not_found,
}

pub record BufferedFile : Type 0 where
  pub data_bytes : Bytes
  pub mime : Text
  pub filename : Option Text

module _ {I F : Type 0} where
  -- `impl_decode_post_field_decode!`, with the `parse` of the integer or of the float.
  abbrev decode_parsed :
      {A E : Type 0} → (E → PostFieldError I F) → (Text → Result A E) → DecodePostField I F Unit A
  decode_parsed into parse = record {
    from_field = λ config content. map_err into (parse content);
    from_file = λ config file filename mime. err wrong_field_type;
    merge_multiple = default_merge_multiple;
    not_found = default_not_found;
  }

  abbrev decode_int : {A : Type 0} → (Text → Result A I) → DecodePostField I F Unit A
  decode_int = decode_parsed wrong_data_type_int

  abbrev decode_float : {A : Type 0} → (Text → Result A F) → DecodePostField I F Unit A
  decode_float = decode_parsed wrong_data_type_float

  abbrev pub decode_string : DecodePostField I F Unit Text
  decode_string = record {
    from_field = λ config content. ok content;
    from_file = λ config file filename mime. err wrong_field_type;
    merge_multiple = default_merge_multiple;
    not_found = default_not_found;
  }

  abbrev ok_some :
      {A : Type 0} → Result A (PostFieldError I F) → Result (Option A) (PostFieldError I F)
  ok_some (ok val) = ok (some val)
  ok_some (err e) = ok none

  abbrev decode_option : {C A : Type 0} → DecodePostField I F C A → DecodePostField I F C (Option A)
  decode_option t = record {
    from_field = λ config content. ok_some (t.from_field config content);
    from_file = λ config file filename mime. ok_some (t.from_file config file filename mime);
    merge_multiple = default_merge_multiple;
    not_found = λ config. ok none;
  }

  abbrev pub decode_bool : DecodePostField I F Unit Bool
  decode_bool = record {
    from_field = λ config content. ok true;
    from_file = λ config file filename mime. ok true;
    merge_multiple = λ self existing. ok (self || existing);
    not_found = λ config. ok false;
  }

  abbrev pub decode_vec : {C A : Type 0} → DecodePostField I F C A → DecodePostField I F C (List A)
  decode_vec t = record {
    from_field = λ config content. map_ok (λ a. a ∷ []) (t.from_field config content);
    from_file =
        λ config file filename mime. map_ok (λ a. a ∷ []) (t.from_file config file filename mime);
    merge_multiple = λ self existing. ok (self ++ existing);
    not_found = λ config. ok [];
  }

  abbrev buffered : Text → Option Text → Option Bytes → Result BufferedFile (PostFieldError I F)
  buffered mime filename out =
      map_ok (λ bytes. record { data_bytes = bytes; mime = mime; filename = filename })
        (ok_or io_error out)

  abbrev pub decode_buffered_file : DecodePostField I F Unit BufferedFile
  decode_buffered_file = record {
    from_field = λ config content. err wrong_field_type;
    from_file = λ config file filename mime. buffered mime filename (read_to_end file);
    merge_multiple = default_merge_multiple;
    not_found = default_not_found;
  }
