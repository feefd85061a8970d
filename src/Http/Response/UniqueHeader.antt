-- ===== src/Http/Response/UniqueHeader.antt =====
-- The laws of `with_unique_header`, `without_header` and `with_additional_header` of
-- src/response.rs, in terms of the headers of one name, in whatever case, and the others.
use rouille.Common.{
  ◌≡◌, refl, true, false, not, List, [], ◌∷◌, ◌++◌, Text, arith, eq_ignore_ascii_case, Bool-cases,
  inl, inr, retain, append-nil, eq_ignore_ascii_case_iff,
}
use rouille.Http.Response.{Response, is_header, retain_first, set_first, with_unique_header}

-- The headers of that name, and the others, in order.
abbrev pub named : Text → List (Text × Text) → List (Text × Text)
named name hs = retain (is_header name) hs

abbrev pub others : Text → List (Text × Text) → List (Text × Text)
others name hs = retain (λ h. not (is_header name h)) hs

eq_ignore_ascii_case_self : (s : Text) → eq_ignore_ascii_case s s ≡ true
eq_ignore_ascii_case_self s = (eq_ignore_ascii_case_iff s s).1 refl

module _ (name value : Text) where
  -- After `retain`, headers of the name that come behind the first are gone.
  retain_found : (hs : List (Text × Text)) → retain_first name true hs ≡ (others name hs, true)
  unfolding retain_first
  retain_found [] = refl
  retain_found ((h, v) ∷ hs) = ground (arith, retain_found hs)

  others-set_first :
      (hs : List (Text × Text)) → others name (set_first name value hs) ≡ others name hs
  unfolding set_first
  others-set_first [] = refl
  others-set_first ((h, v) ∷ hs) = ground (arith, others-set_first hs)

  others-others : (hs : List (Text × Text)) → others name (others name hs) ≡ others name hs
  others-others [] = refl
  others-others ((h, v) ∷ hs) = ground (arith, others-others hs)

  named-others : (hs : List (Text × Text)) → named name (others name hs) ≡ []
  named-others [] = refl
  named-others ((h, v) ∷ hs) = ground (arith, named-others hs)

  others-retain_first :
      (hs : List (Text × Text)) → others name (retain_first name false hs).0 ≡ others name hs
  unfolding retain_first
  others-retain_first [] = refl
  others-retain_first ((h, v) ∷ hs) =
      ground (arith, others-retain_first hs, retain_found hs, others-others hs)

  -- No header is marked as found: there is none of the name, and nothing goes.
  retain_none :
      (hs : List (Text × Text))
      → (retain_first name false hs).1 ≡ false
      → (named name hs ≡ []) × ((retain_first name false hs).0 ≡ hs)
  unfolding retain_first
  retain_none [] e = (refl, refl)
  retain_none ((h, v) ∷ hs) e = ground (arith, retain_none hs, retain_found hs)

  -- One header is left of the name.
  retain_one :
      (hs : List (Text × Text))
      → (retain_first name false hs).1 ≡ true
      → (h : Text) × (v : Text) × (named name (retain_first name false hs).0 ≡ (h, v) ∷ [])
  unfolding retain_first
  retain_one [] e = cc
  retain_one ((h, v) ∷ hs) e = elim (Bool-cases (eq_ignore_ascii_case h name)) [
    | inl same ↦ (h, v, ground (arith, retain_found hs, named-others hs))
    | inr other ↦ let (h', v', one) = retain_one hs (ground arith) in (h', v', ground arith)
  ]

  named-set_first :
      (hs : List (Text × Text)) (h v : Text)
      → named name hs ≡ (h, v) ∷ []
      → named name (set_first name value hs) ≡ (h, value) ∷ []
  unfolding set_first
  named-set_first [] h v e = cc
  named-set_first ((k, w) ∷ hs) h v e = ground (arith, named-set_first hs h v)

  named-append :
      (xs ys : List (Text × Text)) → named name (xs ++ ys) ≡ named name xs ++ named name ys
  named-append [] ys = refl
  named-append ((h, v) ∷ xs) ys = ground (arith, named-append xs ys)

  others-append :
      (xs ys : List (Text × Text)) → others name (xs ++ ys) ≡ others name xs ++ others name ys
  others-append [] ys = refl
  others-append ((h, v) ∷ xs) ys = ground (arith, others-append xs ys)

  -- The response has exactly one header of the name, with the value; the other headers are the
  -- same in the same order, and so is all else.
  pub record HasOnly (r r' : Response) : Type 0 where
    pub spelling : Text
    pub one : named name r'.headers ≡ (spelling, value) ∷ []
    pub rest : others name r'.headers ≡ others name r.headers
    pub status : r'.status_code ≡ r.status_code
    pub body : r'.data_body ≡ r.data_body
    pub handler : r'.upgrade ≡ r.upgrade

  -- `with_unique_header` leaves exactly one header of the name, in whatever case, and it has the
  -- value; the other headers are the same in the same order, and so is all else.
  pub with_unique_header-HasOnly : (r : Response) → HasOnly r (with_unique_header name value r)
  unfolding with_unique_header
  with_unique_header-HasOnly r = elim (Bool-cases (retain_first name false r.headers).1) [
    | inl found ↦
        let kept = (retain_first name false r.headers).0 in
        let (h, v, left) = retain_one r.headers found in
        let set = named-set_first kept h v left in
        record {
          spelling = h;
          one = ground arith;
          rest = ground (arith, others-set_first kept, others-retain_first r.headers);
          status = ground arith;
          body = ground arith;
          handler = ground arith;
        }
    | inr missing ↦
        let (nothing, same) = retain_none r.headers missing in
        let new : List (Text × Text) = (name, value) ∷ [] in
        let self = eq_ignore_ascii_case_self name in
        record {
          spelling = name;
          one = ground (arith, named-append r.headers new);
          rest = ground (arith, others-append r.headers new, append-nil (others name r.headers));
          status = ground arith;
          body = ground arith;
          handler = ground arith;
        }
  ]
