-- ===== src/Input/Post/Tests.antt =====
-- Forms that the theorems on src/input/post.rs are applied to.
use rouille.Common.{
  ◌≡◌, ◌≢◌, refl, true, Bool, false, Option, none, some, List, [], ◌∷◌, map, Bytes, Text, text,
  split, split_once, arith, eq_ignore_ascii_case, starts_with, text_eq,
}
use rouille.Common.Results.{to_option}
use rouille.Http.Body.{cursor}
use rouille.Http.Request.{Request, Bodies, stored, header}
use rouille.Input.Multipart.{Multipart, get_multipart_input}
use rouille.Input.Post.Fields.{decode_string, decode_vec, decode_bool}
use rouille.Input.Post.Form.{Field, Entry, post_input}
use rouille.Input.Post.Values.{AllApart}
use rouille.Input.Post.Requests.{vec_field, post_input_urlencoded, post_input_vec}

abbrev pair_of : Text × Option Text → Text × Text
pair_of (name, none) = (name, [])
pair_of (name, some value) = (name, value)

-- Pairs without escapes.
abbrev plain_pairs : Bytes → List (Text × Text)
plain_pairs bytes = map (λ piece. pair_of (split_once b'=' piece)) (split b'&' bytes)

abbrev one_entry : Multipart → List Entry
one_entry m =
    record {
      name = m.boundary;
      is_text = false;
      filename = none;
      content_type = none;
      data_reader = m.request_body;
    }
    ∷ []

abbrev words : Field Unit Unit
words = record {
  name = text "w";
  Config = Unit;
  config = tt;
  Ty = List Text;
  decode = decode_vec decode_string;
}

abbrev checked : Field Unit Unit
checked = record { name = text "c"; Config = Unit; config = tt; Ty = Bool; decode = decode_bool }

abbrev posted : Text → Request
posted content_type = record {
  method = text "POST";
  url = text "/";
  headers = (text "content-type", content_type) ∷ [];
  https = false;
  shared_data = 0;
  remote_addr = none;
}

abbrev form_bytes : Bytes
form_bytes = text "w=one&c=on&w=two"

abbrev stored_form : Bodies
stored_form = stored 0 (cursor form_bytes) (λ i. none)

w_ne_c : ◌≢◌ {A = Text} (b'w' ∷ []) (b'c' ∷ [])
w_ne_c e = ground arith

two_fields-AllApart : AllApart (words ∷ checked ∷ [])
unfolding text
two_fields-AllApart = ((w_ne_c, tt), (tt, tt))

post_input_urlencoded_example :
    to_option
      (post_input plain_pairs one_entry
        (words ∷ checked ∷ [])
        (posted (text "application/x-www-form-urlencoded"))
        stored_form).0
    ≡ some (text "one" ∷ text "two" ∷ [], (true, tt))
unfolding text header eq_ignore_ascii_case starts_with get_multipart_input split_once split text_eq
post_input_urlencoded_example =
    post_input_urlencoded plain_pairs one_entry (words ∷ checked ∷ [])
      (posted (text "application/x-www-form-urlencoded")) stored_form (cursor form_bytes) form_bytes
      two_fields-AllApart refl refl refl

abbrev boundary_x : Text
boundary_x = text "multipart/form-data; boundary=w"

post_input_vec_example :
    to_option
      (post_input plain_pairs one_entry
        (vec_field {I = Unit {0}} {F = Unit {0}} decode_string tt (text "w") ∷ [])
        (posted (text "application/x-www-form-urlencoded"))
        stored_form).0
    ≡ some (text "one" ∷ text "two" ∷ [], tt)
unfolding text header eq_ignore_ascii_case starts_with get_multipart_input split_once split text_eq
post_input_vec_example =
    post_input_vec plain_pairs one_entry decode_string tt (text "w")
      (posted (text "application/x-www-form-urlencoded")) stored_form (cursor form_bytes) form_bytes
      refl refl refl
