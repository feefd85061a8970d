-- ===== src/Http/Response/Etag.antt =====
-- The ETag operations of `Response` in src/response.rs.
use rouille.Common.{
  ◌≡◌, refl, ◌∙◌, Bool, true, false, ◌||◌, ◌&&◌, none, some, List, [], ◌∷◌, ltb, leb, if◌then◌else◌,
  Text, arith, text as literal, text_eq, eq_ignore_ascii_case, Bool-cases, inl, inr,
}
use rouille.Http.Body
use rouille.Http.Request.{Request, header}
use rouille.Http.Response.{Response, with_unique_header}
use rouille.Http.Response.UniqueHeader.{named, with_unique_header-HasOnly}

unfoldable pub with_etag_keep : Text → Response → Response
with_etag_keep etag r = with_unique_header (literal "ETag") etag r

-- `request.header("If-None-Match").map(|header| header == etag).unwrap_or(false)`
abbrev pub none_match : Request → Text → Bool
none_match request etag = elim (header request (literal "If-None-Match")) [
  | none ↦ false
  | some value ↦ text_eq value etag
]

-- The loop over the headers: the last `ETag` decides.
unfoldable not_modified_from : Request → Bool → List (Text × Text) → Bool
not_modified_from request not_modified [] = not_modified
not_modified_from request not_modified ((key, etag) ∷ hs) =
    not_modified_from request
      (if eq_ignore_ascii_case key (literal "ETag") then none_match request etag else not_modified)
      hs

unfoldable simplify_if_etag_match : Request → Response → Response
unfolding not_modified_from
simplify_if_etag_match request r =
    if ltb r.status_code 200 || leb 300 r.status_code
    then r
    else if not_modified_from request false r.headers
    then record r { data_body = Body.empty; status_code = 304 }
    else r

unfoldable pub with_etag : Request → Text → Response → Response
unfolding simplify_if_etag_match with_etag_keep
with_etag request etag r = simplify_if_etag_match request (with_etag_keep etag r)

-- Only the headers named `ETag` are looked at.
not_modified_from-named :
    (request : Request) (b : Bool) (hs : List (Text × Text))
    → not_modified_from request b hs ≡ not_modified_from request b (named (literal "ETag") hs)
unfolding not_modified_from
not_modified_from-named request b [] = refl
not_modified_from-named request b ((k, v) ∷ hs) =
    elim (Bool-cases (eq_ignore_ascii_case k (literal "ETag"))) [
      | inl same ↦ ground (arith, not_modified_from-named request (none_match request v) hs)
      | inr other ↦ ground (arith, not_modified_from-named request b hs)
    ]

named_matches :
    (name : Text) (hs : List (Text × Text)) (h v : Text)
    → named name hs ≡ (h, v) ∷ []
    → eq_ignore_ascii_case h name ≡ true
named_matches name [] h v e = cc
named_matches name ((k, w) ∷ hs) h v e = ground (arith, named_matches name hs h v)

-- With the one `ETag` that `with_etag_keep` leaves, the loop compares that one.
with_etag_keep-not_modified :
    (request : Request) (etag : Text) (r : Response)
    → not_modified_from request false (with_etag_keep etag r).headers ≡ none_match request etag
unfolding with_etag_keep
with_etag_keep-not_modified request etag r =
    let only = with_unique_header-HasOnly (literal "ETag") etag r in
    let hs = (with_unique_header (literal "ETag") etag r).headers in
    let same = named_matches (literal "ETag") hs only.spelling etag only.one in
    not_modified_from-named request false hs
    ∙ rw only.one (unfold not_modified_from in rw same refl)

-- A success whose entity tag is the `If-None-Match` of the request becomes an empty 304 with the
-- same headers; any other response only gets the tag.
with_etag_lem :
    (request : Request) (etag : Text) (r : Response)
    → with_etag request etag r ≡ (
        if leb 200 r.status_code && ltb r.status_code 300 && none_match request etag
        then record (with_etag_keep etag r) { data_body = Body.empty; status_code = 304 }
        else with_etag_keep etag r)
unfolding with_etag simplify_if_etag_match
with_etag_lem request etag r =
    let only = with_unique_header-HasOnly (literal "ETag") etag r in
    let decided = with_etag_keep-not_modified request etag r in
    let kept = only.status in ground arith
