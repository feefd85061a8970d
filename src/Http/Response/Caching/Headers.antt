-- ===== src/Http/Response/Caching/Headers.antt =====
-- The headers that `with_public_cache` and `with_no_cache` of src/response.rs leave.
use rouille.Common.{
  ℕ, ◌≡◌, refl, ◌∙◌, sym, true, false, List, [], ◌∷◌, ◌++◌, Text, text as literal, text_eq, decimal,
  arith, eq_ignore_ascii_case, eq_ignore_ascii_case_iff, Bool-cases, inl, inr,
}
use rouille.Http.Response.{Response, with_unique_header, without_header}
use rouille.Http.Response.UniqueHeader.{named, others, with_unique_header-HasOnly}
use rouille.Http.Response.Caching.{with_public_cache}

-- A header that has one name does not have another.
other_name :
    (k keep gone : Text)
    → eq_ignore_ascii_case keep gone ≡ false
    → eq_ignore_ascii_case k keep ≡ true
    → eq_ignore_ascii_case k gone ≡ false
other_name k keep gone ne e = elim (Bool-cases (eq_ignore_ascii_case k gone)) [
  | inr other ↦ other
  | inl same ↦
      let a = (eq_ignore_ascii_case_iff k keep).0 e in
      let b = (eq_ignore_ascii_case_iff k gone).0 same in
      let c = (eq_ignore_ascii_case_iff keep gone).1 (sym a ∙ b) in absurd (cc)
]

named-others_of :
    (keep gone : Text) (hs : List (Text × Text))
    → eq_ignore_ascii_case keep gone ≡ false
    → named keep (others gone hs) ≡ named keep hs
named-others_of keep gone [] ne = refl
named-others_of keep gone ((k, v) ∷ hs) ne = elim (Bool-cases (eq_ignore_ascii_case k keep)) [
  | inl same ↦ ground (arith, named-others_of keep gone hs ne, other_name k keep gone ne same)
  | inr other ↦ ground (arith, named-others_of keep gone hs ne)
]

named-others_gone : (gone : Text) (hs : List (Text × Text)) → named gone (others gone hs) ≡ []
named-others_gone gone [] = refl
named-others_gone gone ((k, v) ∷ hs) = ground (arith, named-others_gone gone hs)

-- `with_public_cache` leaves one `Cache-Control` header, which allows the lifetime, and no `Expires`
-- and no `Pragma`; the status and the body are the same.
with_public_cache_lem :
    (max_age : ℕ) (r : Response)
    → (spelling : Text) × (named (literal "Cache-Control") (with_public_cache max_age r).headers
        ≡ (spelling, literal "public, max-age=" ++ decimal max_age) ∷ [])
      × (named (literal "Expires") (with_public_cache max_age r).headers ≡ [])
      × (named (literal "Pragma") (with_public_cache max_age r).headers ≡ [])
      × ((with_public_cache max_age r).status_code ≡ r.status_code)
      × ((with_public_cache max_age r).data_body ≡ r.data_body)
unfolding with_public_cache without_header literal text_eq eq_ignore_ascii_case
with_public_cache_lem max_age r =
    let value = literal "public, max-age=" ++ decimal max_age in
    let first = with_unique_header (literal "Cache-Control") value r in
    let only = with_unique_header-HasOnly (literal "Cache-Control") value r in
    let rest = others (literal "Expires") first.headers in
    (
      only.spelling,
      named-others_of (literal "Cache-Control") (literal "Pragma") rest refl
          ∙ named-others_of (literal "Cache-Control") (literal "Expires") first.headers refl
          ∙ only.one,
      named-others_of (literal "Expires") (literal "Pragma") rest refl
          ∙ named-others_gone (literal "Expires") first.headers,
      named-others_gone (literal "Pragma") rest,
      only.status,
      only.body,
    )
