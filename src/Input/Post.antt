-- ===== src/Input/Post.antt =====
-- POST forms, src/input/post.rs: the errors, the trait `DecodePostField`, and the raw form. The
-- reasons of `str::parse` for integers and for floats are of the types `I` and `F`.
pub mod Fields
pub mod Form
pub mod Values
pub mod Decoding
pub mod Requests
pub mod Sources
mod Tests
use rouille.Common.{
  Bool, true, false, not, if◌then◌else◌, Option, none, some, List, Bytes, Text, text, starts_with,
}
use rouille.Common.Results.{Result, ok, err, and_then, map_ok, ok_or}
use rouille.Http.Body.{Reader, read_to_end}
use rouille.Http.Request.{Request, Bodies, header, take_data}

pub data PostFieldError (I F : Type 0) : Type 0 where
  io_error : PostFieldError I F
  missing_field : PostFieldError I F
  wrong_field_type : PostFieldError I F
  unexpected_multiple_values : PostFieldError I F
  wrong_data_type_int : I → PostFieldError I F
  wrong_data_type_float : F → PostFieldError I F

pub data PostError (I F : Type 0) : Type 0 where
  wrong_content_type : PostError I F
  body_already_extracted : PostError I F
  io_error : PostError I F
  not_utf8 : Text → PostError I F
  field : Text → PostFieldError I F → PostError I F

-- The trait. A `BufRead` is what it brings, and `none` is a file without a name.
pub record DecodePostField (I F : Type 0) (Config Self : Type 0) : Type 0 where
  pub from_field : Config → Text → Result Self (PostFieldError I F)
  pub from_file : Config → Reader → Option Text → Text → Result Self (PostFieldError I F)
  pub merge_multiple : Self → Self → Result Self (PostFieldError I F)
  pub not_found : Config → Result Self (PostFieldError I F)

abbrev pub urlencoded_type : Option Text → Bool
urlencoded_type none = false
urlencoded_type (some ct) = starts_with (text "application/x-www-form-urlencoded") ct

module _ {I F : Type 0} where
  -- The methods that the trait provides.
  abbrev pub default_merge_multiple : {A : Type 0} → A → A → Result A (PostFieldError I F)
  default_merge_multiple self existing = err unexpected_multiple_values

  abbrev pub default_not_found : {C A : Type 0} → C → Result A (PostFieldError I F)
  default_not_found config = err missing_field

  -- `Display`
  unfoldable pub describe_field_error : PostFieldError I F → Text
  describe_field_error io_error =
      text "could not read the body from the request, or could not execute the CGI program"
  describe_field_error missing_field = text "the field is missing from the request's client"
  describe_field_error wrong_field_type = text "expected a file but got a field, or vice versa"
  describe_field_error unexpected_multiple_values =
      text "got multiple values for the same field while only one was expected"
  describe_field_error (wrong_data_type_int e) = text "failed to parse an integer field"
  describe_field_error (wrong_data_type_float e) = text "failed to parse a floating-point field"

  unfoldable pub describe_error : PostError I F → Text
  describe_error body_already_extracted = text "the body of the request was already extracted"
  describe_error wrong_content_type = text "the request didn't have a post content type"
  describe_error io_error =
      text "could not read the body from the request, or could not execute the CGI program"
  describe_error (not_utf8 e) =
      text "the content-type encoding is not ASCII or UTF-8, or the body is not valid UTF-8"
  describe_error (field name e) = text "failed to parse a requested field"

  -- `let body = { … }`: the body, if it is still there and can be read.
  unfoldable pub read_body : Option Reader → Result Bytes (PostError I F)
  read_body none = err body_already_extracted
  read_body (some b) = ok_or io_error (read_to_end b)

  -- `form_urlencoded::parse`
  module _ (parse : Bytes → List (Text × Text)) where
    unfoldable raw_urlencoded_post_input :
        Request → Bodies → Result (List (Text × Text)) (PostError I F) × Bodies
    unfolding take_data read_body
    raw_urlencoded_post_input request bodies =
        let (body, rest) = take_data request bodies in
        if not (urlencoded_type (header request (text "Content-Type")))
        then (err wrong_content_type, bodies)
        else (map_ok parse (read_body body), rest)
