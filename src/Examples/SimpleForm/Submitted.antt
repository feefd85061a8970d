-- ===== src/Examples/SimpleForm/Submitted.antt =====
-- Which forms examples/simple-form.rs takes.
use rouille.Common.{
  is_some, ◌≡◌, refl, ap, ◌∙◌, Bool, true, false, if◌then◌else◌, ℕ, Option, none, some, List, [],
  ◌∷◌, ◌>>=◌, Bytes, Text, text, text_eq, text_eq_iff, retain, arith,
}
use rouille.Common.Results.{Result, ok, err, to_option, map_err, both}
use rouille.Http.Body.{Reader, read_to_end}
use rouille.Http.Request.{Request, Bodies, header}
use rouille.Http.Response.{html, json, with_status_code, empty_404}
use rouille.Input.Post.{PostError, urlencoded_type}
use rouille.Input.Post.Fields.{BufferedFile}
use rouille.Input.Post.Sources.{as_error}
use rouille.Input.Post.Form.{PostInput, post_input, decode_value, name_of_pair}
use rouille.Input.Post.Values.{AllApart, form_values, decode_each, merged}
use rouille.Input.Post.Requests.{post_input_urlencoded}
use rouille.Logging.ErrorChain.{try_or_400}
use rouille.Routing.{router, dispatch, request_url}
use rouille.Routing.OldStyle.{check_pattern}
use rouille.Examples.Branches.{goes_to, branch-ident}
use rouille.Examples.LoginSession.{Crates, string_field}
use rouille.Examples.SimpleForm.{form, fields, files_field, answer, submit, handler}

-- The pairs of the name.
abbrev named : Text → List (Text × Text) → List (Text × Text)
named name pairs = retain (λ pair. text_eq (name_of_pair pair) name) pairs

-- One text and, as a form of this type has no files, none of them.
abbrev is_complete : List (Text × Text) → List (Text × Text) → Bool
is_complete (txt ∷ []) [] = true
is_complete _ _ = false

abbrev status : Bool → ℕ
status true = 200
status false = 400

not_get :
    (method : Text) → text_eq method (text "POST") ≡ true → text_eq method (text "GET") ≡ false
unfolding text text_eq
not_get method e = ap (λ m. text_eq m (text "GET")) ((text_eq_iff method (text "POST")).0 e)

module _ (crates : Crates) where
  open crates use {
    ParseIntError, ParseFloatError, io, int, float, parse, entries, percent_decode_lossy, to_string,
  }

  -- The handler never panics: the form, what `submit` makes, or a 404.
  handler-table :
      (request : Request) (bodies : Bodies)
      → handler crates request bodies
        ≡ some (
            if goes_to (text "GET") (text "/") request
            then html form
            else if goes_to (text "POST") (text "/submit") request
            then submit crates request bodies
            else empty_404)
  unfolding handler router dispatch text check_pattern
  handler-table request bodies = ground (
    arith,
    branch-ident percent_decode_lossy (text "POST") (text "submit") (request_url request)
        (submit crates request bodies),
  )

  fields-AllApart : AllApart (fields crates)
  unfolding text
  fields-AllApart = (((λ e. ground arith), tt), (tt, tt))

  abbrev txt : List (Text × Text) → Option Text
  txt ((name, value) ∷ []) = some value
  txt _ = none

  never_one :
      (v w : Text) (rest : Option (List Text))
      → (((rest >>= λ vs. some (w ∷ vs)) >>= λ vs. some (v ∷ vs))
          >>= merged (string_field crates (text "txt")) none)
        ≡ none
  never_one v w none = refl
  never_one v w (some vs) = refl

  txt_value :
      (pairs : List (Text × Text))
      → (decode_each name_of_pair decode_value (string_field crates (text "txt")) pairs
          >>= merged (string_field crates (text "txt")) none)
        ≡ txt pairs
  txt_value [] = refl
  txt_value (pair ∷ []) = refl
  txt_value (pair ∷ pair' ∷ pairs) =
      never_one pair.1 pair'.1
        (decode_each name_of_pair decode_value (string_field crates (text "txt")) pairs)

  abbrev files : List (Text × Text) → Option (List BufferedFile)
  files [] = some []
  files _ = none

  files_value :
      (pairs : List (Text × Text))
      → (decode_each name_of_pair decode_value (files_field crates) pairs
          >>= merged (files_field crates) none)
        ≡ files pairs
  files_value [] = refl
  files_value (pair ∷ pairs) = refl

  complete :
      (txts others : List (Text × Text))
      → is_some (both (txt txts) (both (files others) (some tt))) ≡ is_complete txts others
  complete [] others = refl
  complete (pair ∷ []) [] = refl
  complete (pair ∷ []) (other ∷ others) = refl
  complete (pair ∷ pair' ∷ pairs) others = refl

  accepted :
      (pairs : List (Text × Text))
      → is_some (form_values name_of_pair decode_value (fields crates) pairs)
        ≡ is_complete (named (text "txt") pairs) (named (text "files") pairs)
  accepted pairs = rw (txt_value (named (text "txt") pairs)) (
      rw (files_value (named (text "files") pairs))
        (complete (named (text "txt") pairs) (named (text "files") pairs)))

  answer-status :
      (result : Result (PostInput (fields crates)) (PostError ParseIntError ParseFloatError))
      → (answer crates (try_or_400 to_string (map_err (as_error io int float) result))).status_code
        ≡ status (is_some (to_option result))
  unfolding try_or_400 html json with_status_code
  answer-status (ok input) = refl
  answer-status (err e) = refl

  submit-status :
      (request : Request) (bodies : Bodies) (body : Reader) (bytes : Bytes)
      → urlencoded_type (header request (text "Content-Type")) ≡ true
      → bodies request.shared_data ≡ some body
      → read_to_end body ≡ some bytes
      → (submit crates request bodies).status_code
        ≡ status
            (is_complete (named (text "txt") (parse bytes)) (named (text "files") (parse bytes)))
  unfolding submit
  submit-status request bodies body bytes e there all =
      answer-status (post_input parse entries (fields crates) request bodies).0
      ∙ ap (λ v. status (is_some v))
          (post_input_urlencoded parse entries (fields crates) request bodies body bytes
            fields-AllApart e there all)
      ∙ ap status (accepted (parse bytes))

  handler-submit :
      (request : Request) (bodies : Bodies)
      → goes_to (text "POST") (text "/submit") request ≡ true
      → handler crates request bodies ≡ some (submit crates request bodies)
  handler-submit request bodies e =
      handler-table request bodies ∙ ap some (ground (arith, not_get request.method))

  -- A form that is sent to /submit by POST with the type application/x-www-form-urlencoded and a
  -- body that is still there and can be read is answered: with a success if exactly one of the
  -- pairs is named txt and none is named files, as such a form has no files, and otherwise with
  -- the status 400.
  pub handler-status :
      (request : Request) (bodies : Bodies) (body : Reader) (bytes : Bytes)
      → goes_to (text "POST") (text "/submit") request ≡ true
      → urlencoded_type (header request (text "Content-Type")) ≡ true
      → bodies request.shared_data ≡ some body
      → read_to_end body ≡ some bytes
      → (handler crates request bodies >>= λ response. some response.status_code)
        ≡ some (
            status
              (is_complete (named (text "txt") (parse bytes)) (named (text "files") (parse bytes))))
  handler-status request bodies body bytes goes e there all =
      rw (handler-submit request bodies goes)
        (ap some (submit-status request bodies body bytes e there all))
