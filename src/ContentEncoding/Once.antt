-- ===== src/ContentEncoding/Once.antt =====
-- A response is encoded at most once.
use rouille.Common.{
  ℕ, ◌≡◌, refl, Bool, true, ◌||◌, Option, none, some, List, [], ◌∷◌, ◌++◌, any, Bytes, Text, text,
  text_eq, eq_ignore_ascii_case, arith, ◌⊎◌, inl, inr, Bool-cases,
}
use rouille.Http.Body.{ResponseBody}
use rouille.Http.Request.{Request}
use rouille.Http.Response.{Response}
use rouille.Input.Priority.{Floats}
use rouille.ContentEncoding.{
  Encoders, apply, is_encoded, response_is_text, with_encoding, gzip, brotli, zipped, encode,
  encode_at, preferred,
}

any-append :
    (p : Text × Text → Bool) (hs : List (Text × Text)) (h : Text × Text)
    → p h ≡ true
    → any p (hs ++ h ∷ []) ≡ true
any-append p [] h e = ground arith
any-append p (g ∷ hs) h e = ground (arith, any-append p hs h e)

module _ (enc : Encoders) (fl : Floats) where
  with_encoding-is_encoded :
      (name : Text) (body : ResponseBody) (response : Response)
      → is_encoded enc fl (with_encoding enc fl name body response) ≡ true
  unfolding is_encoded eq_ignore_ascii_case text
  with_encoding-is_encoded name body response =
      any-append (λ kv. eq_ignore_ascii_case kv.0 (text "Content-Encoding")) response.headers
        (text "Content-Encoding", name) refl

  made_lem :
      (name : Text) (body : ResponseBody) (response r : Response)
      → some (with_encoding enc fl name body response) ≡ some r
      → is_encoded enc fl r ≡ true
  made_lem name body response r e = ground (arith, with_encoding-is_encoded name body response)

  zipped_lem :
      (response r : Response) (src : Option Bytes)
      → zipped enc fl response src ≡ some r
      → is_encoded enc fl r ≡ true
  zipped_lem response r none e = cc
  zipped_lem response r (some src) e = made_lem (text "gzip") _ response r e

  gzip_lem : (response r : Response) → gzip enc fl response ≡ some r → is_encoded enc fl r ≡ true
  unfolding gzip
  gzip_lem response r e = zipped_lem response r _ e

  brotli_lem :
      (response r : Response) → brotli enc fl response ≡ some r → is_encoded enc fl r ≡ true
  unfolding brotli
  brotli_lem response r e = made_lem (text "br") _ response r e

  encode_lem :
      (name : Option Text) (response r : Response)
      → encode enc fl name response ≡ some r
      → (r ≡ response) ⊎ (is_encoded enc fl r ≡ true)
  encode_lem none response r e = inl (ground arith)
  encode_lem (some name) response r e = elim (Bool-cases (text_eq name (text "br"))) [
    | inl br ↦ inr (brotli_lem response r (ground arith))
    | inr other ↦ elim (Bool-cases (text_eq name (text "gzip") || text_eq name (text "x-gzip"))) [
      | inl zip ↦ inr (gzip_lem response r (ground arith))
      | inr identity ↦ inl (ground arith)
    ]
  ]

  encode_at_lem :
      (index : Option ℕ) (response r : Response)
      → encode_at enc fl index response ≡ some r
      → (r ≡ response) ⊎ (is_encoded enc fl r ≡ true)
  encode_at_lem none response r e = inl (ground arith)
  encode_at_lem (some i) response r e = encode_lem _ response r e

  apply_encoded :
      (request : Request) (response : Response)
      → is_encoded enc fl response ≡ true
      → apply enc fl request response ≡ some response
  unfolding apply
  apply_encoded request response e = elim (Bool-cases (response_is_text enc fl response)) [
    | inl is_text ↦ ground arith
    | inr other ↦ ground arith
  ]

  apply_lem :
      (request : Request) (response r : Response)
      → apply enc fl request response ≡ some r
      → (r ≡ response) ⊎ (is_encoded enc fl r ≡ true)
  unfolding apply
  apply_lem request response r e = elim (Bool-cases (response_is_text enc fl response)) [
    | inr other ↦ inl (ground arith)
    | inl is_text ↦ elim (Bool-cases (is_encoded enc fl response)) [
      | inl done ↦ inl (ground arith)
      | inr fresh ↦ encode_at_lem (preferred enc fl request) response r (ground arith)
    ]
  ]

  -- What `apply` has made is left as it is by another `apply` for the same request.
  pub apply-apply :
      (request : Request) (response r : Response)
      → apply enc fl request response ≡ some r
      → apply enc fl request r ≡ some r
  apply-apply request response r e = elim (apply_lem request response r e) [
    | inl same ↦ ground arith
    | inr done ↦ apply_encoded request r done
  ]
