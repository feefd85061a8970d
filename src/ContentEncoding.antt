-- ===== src/ContentEncoding.antt =====
-- Content encodings of responses, src/content_encoding.rs, with both features on.
pub mod Once
mod Tests
use rouille.Common.{
  ℕ, ◌≡◌, refl, Bool, true, false, ◌&&◌, ◌||◌, Option, none, some, List, [], ◌∷◌, ◌++◌,
  if◌then◌else◌, any, get_elem?, Bytes, Text, text, text_eq, starts_with, contains,
  eq_ignore_ascii_case, arith, Bool-cases, inl, inr,
}
use rouille.Http.Body.{
  Reader, ResponseBody, read_to_end, into_reader_and_size, from_data, from_reader,
}
use rouille.Http.Request.{Request, header}
use rouille.Http.Response.{Response}
use rouille.Input.Priority.{Floats, priority_header_preferred}

-- What the encodings and the case mapping are given by other crates and the standard library:
-- `str::to_lowercase`, `deflate_bytes_gzip` and the reader `CompressorReader::new(…, 0, 6, 22)`.
pub record Encoders : Type 1 where
  pub to_lowercase : Text → Text
  pub deflate_bytes_gzip : Bytes → Bytes
  pub compressor_reader : Reader → Reader

abbrev encoding_preference : List Text
encoding_preference = text "br" ∷ text "gzip" ∷ text "x-gzip" ∷ text "identity" ∷ []

abbrev or_empty : Option Text → Text
or_empty none = []
or_empty (some h) = h

module _ (enc : Encoders) (fl : Floats) where
  abbrev is_text_type : Text → Bool
  is_text_type content_type =
      starts_with (text "text/") content_type
      || contains (text "javascript") content_type
      || contains (text "json") content_type
      || contains (text "xml") content_type
      || contains (text "font") content_type

  unfoldable pub response_is_text : Response → Bool
  response_is_text response =
      any
        (λ kv.
          eq_ignore_ascii_case kv.0 (text "Content-Type") && is_text_type (enc.to_lowercase kv.1))
        response.headers

  unfoldable pub is_encoded : Response → Bool
  is_encoded response =
      any (λ kv. eq_ignore_ascii_case kv.0 (text "Content-Encoding")) response.headers

  abbrev pub with_encoding : Text → ResponseBody → Response → Response
  with_encoding name body response = record response {
    headers = response.headers ++ (text "Content-Encoding", name) ∷ [];
    data_body = body;
  }

  abbrev pub zipped : Response → Option Bytes → Option Response
  zipped response none = none
  zipped response (some src) =
      some (with_encoding (text "gzip") (from_data (enc.deflate_bytes_gzip src)) response)

  -- `none` is the failed `expect`.
  unfoldable pub gzip : Response → Option Response
  gzip response = zipped response (read_to_end (into_reader_and_size response.data_body).0)

  unfoldable pub brotli : Response → Option Response
  brotli response =
      let raw_data = (into_reader_and_size response.data_body).0 in
      some (with_encoding (text "br") (from_reader (enc.compressor_reader raw_data)) response)

  abbrev pub encode : Option Text → Response → Option Response
  encode none response = none
  encode (some encoding) response =
      if text_eq encoding (text "br")
      then brotli response
      else if text_eq encoding (text "gzip") || text_eq encoding (text "x-gzip")
      then gzip response
      else some response

  abbrev pub encode_at : Option ℕ → Response → Option Response
  encode_at none response = some response
  encode_at (some preferred_index) response =
      encode (get_elem? encoding_preference preferred_index) response

  -- `priority_header_preferred(accept_encoding_header, …)`
  abbrev pub preferred : Request → Option ℕ
  preferred request =
      priority_header_preferred fl (or_empty (header request (text "Accept-Encoding")))
        encoding_preference

  unfoldable pub apply : Request → Response → Option Response
  unfolding response_is_text is_encoded
  apply request response =
      if response_is_text response
      then if is_encoded response then some response else encode_at (preferred request) response
      else some response
