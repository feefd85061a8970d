-- ===== src/Routing/OldStyle/Soundness.antt =====
-- The paths that the old style of `router!` matches are among those that its pattern prints.
use rouille.Common.{
  ℕ, ◌≡◌, refl, sym, ap, ◌∙◌, Option, none, some, List, [], ◌∷◌, ◌++◌, ◌==◌, Text, Bytes, text_eq,
  text_eq_iff, split_once, strip_prefix, strip_prefix-eq_some, drop, arith, Lacks, inl, inr,
  Option-cases, Bool-cases,
}
use rouille.Common.Utf8.{as_bytes}
use rouille.Routing.OldStyle.{
  Token, slash_param, slash_typed_param, slash_ident, dash, slash, ident, check_pattern, segment,
  bind_value, pat_end,
}
use rouille.Routing.OldStyle.Matching.{render, EndsSegment, Fits, values}

abbrev tail_of : ℕ → Option (List ℕ) → List ℕ
tail_of sep none = []
tail_of sep (some after) = sep ∷ after

split_once_cut :
    (sep : ℕ) (s : List ℕ)
    → Lacks sep (split_once sep s).0
      × (s ≡ (split_once sep s).0 ++ tail_of sep (split_once sep s).1)
unfolding split_once
split_once_cut sep [] = (tt, refl)
split_once_cut sep (c ∷ s) =
    let (lacking, whole) = split_once_cut sep s in
    elim (Bool-cases (c == sep)) [
      | inl same ↦ rw same (tt, ground arith)
      | inr other ↦ rw other ((ground arith, lacking), ap (◌∷◌ c) whole)
    ]

-- A path cut behind its first segment.
record IsCut (url seg rest : Text) : Type 0 where
  whole : url ≡ seg ++ rest
  lacking : Lacks b'/' seg
  ending : EndsSegment rest

pat_end-IsCut :
    (url : Text) (cut : Text × Option Text)
    → Lacks b'/' cut.0
    → url ≡ cut.0 ++ tail_of b'/' cut.1
    → IsCut url (pat_end cut).0 (pat_end cut).1
pat_end-IsCut url (before, none) l e = record { whole = e; lacking = l; ending = inl refl }
pat_end-IsCut url (before, some after) l e = record {
  whole = e;
  lacking = l;
  ending = inr (after, refl);
}

segment-IsCut : (url : Text) → IsCut url (segment url).0 (segment url).1
unfolding segment
segment-IsCut url =
    let (lacking, whole) = split_once_cut b'/' url in
    pat_end-IsCut url (split_once b'/' url) lacking whole

-- Both parts of a parameter's match succeed.
bind_value-eq_some :
    {P : Type 0} (first : Option P) (rest : Option (List P)) (vs : List P)
    → bind_value first rest ≡ some vs
    → (v : P) × (ws : List P) × (first ≡ some v) × (rest ≡ some ws) × (vs ≡ v ∷ ws)
bind_value-eq_some none rest vs e = cc
bind_value-eq_some (some v) none vs e = cc
bind_value-eq_some (some v) (some ws) vs e = (v, ws, refl, refl, ground arith)

module _ {P : Type 0} (parse : Text → Option P) (percent_decode_lossy : Bytes → Text) where
  -- Texts for the parameters with which the pattern prints the path, and which are parsed to the
  -- values.
  pub record IsPrinted (tokens : List Token) (url : Text) (vs : List P) : Type 0 where
    pub pieces : List Text
    pub fits : Fits tokens pieces
    pub prints : url ≡ render tokens pieces
    pub reads : values parse percent_decode_lossy tokens pieces ≡ some vs

  -- A path that `check_pattern` matches is one that the pattern prints, from texts without `/`, one
  -- for each parameter, and the values are what these texts are parsed to.
  pub check_pattern-IsPrinted :
      (tokens : List Token) (url : Text) (vs : List P)
      → check_pattern parse percent_decode_lossy tokens url ≡ some vs
      → IsPrinted tokens url vs
  unfolding check_pattern
  check_pattern-IsPrinted [] [] vs e = record { pieces = []; fits = tt; prints = refl; reads = e }
  check_pattern-IsPrinted [] (c ∷ url) vs e = cc
  check_pattern-IsPrinted (slash ∷ tokens) url vs e = elim (Bool-cases (text_eq url (b'/' ∷ []))) [
    | inl same ↦ record {
      pieces = [];
      fits = tt;
      prints = (text_eq_iff url (b'/' ∷ [])).0 same;
      reads = ground arith;
    }
    | inr other ↦ absurd (ground arith)
  ]
  check_pattern-IsPrinted (slash_param ∷ tokens) url vs e =
      elim (Option-cases (strip_prefix (b'/' ∷ []) url)) [
        | inl missing ↦ absurd (ground arith)
        | inr (stripped, found) ↦
            let seg = (segment (drop 1 url)).0 in
            let rest = (segment (drop 1 url)).1 in
            let cut = segment-IsCut (drop 1 url) in
            let begins = strip_prefix-eq_some (b'/' ∷ []) url stripped found in
            let (v, ws, first, later, both) =
              bind_value-eq_some (parse seg) (check_pattern parse percent_decode_lossy tokens rest)
                vs (ground arith) in
            let ih = check_pattern-IsPrinted tokens rest ws later in
            record {
              pieces = seg ∷ ih.pieces;
              fits = (cut.lacking, rw (sym ih.prints) cut.ending, ih.fits);
              prints = ground (arith, cut.whole, ih.prints);
              reads = ground (arith, ih.reads);
            }
      ]
  check_pattern-IsPrinted (slash_typed_param ∷ tokens) url vs e =
      elim (Option-cases (strip_prefix (b'/' ∷ []) url)) [
        | inl missing ↦ absurd (ground arith)
        | inr (stripped, found) ↦
            let seg = (segment (drop 1 url)).0 in
            let rest = (segment (drop 1 url)).1 in
            let cut = segment-IsCut (drop 1 url) in
            let begins = strip_prefix-eq_some (b'/' ∷ []) url stripped found in
            let (v, ws, first, later, both) =
              bind_value-eq_some (parse (percent_decode_lossy (as_bytes seg)))
                (check_pattern parse percent_decode_lossy tokens rest) vs (ground arith) in
            let ih = check_pattern-IsPrinted tokens rest ws later in
            record {
              pieces = seg ∷ ih.pieces;
              fits = (cut.lacking, rw (sym ih.prints) cut.ending, ih.fits);
              prints = ground (arith, cut.whole, ih.prints);
              reads = ground (arith, ih.reads);
            }
      ]
  check_pattern-IsPrinted (slash_ident name ∷ tokens) url vs e =
      elim (Option-cases (strip_prefix (b'/' ∷ name) url)) [
        | inl missing ↦ absurd (ground arith)
        | inr (rest, found) ↦
            let ih = check_pattern-IsPrinted tokens rest vs (ground arith) in
            record {
              pieces = ih.pieces;
              fits = ih.fits;
              prints =
                  strip_prefix-eq_some (b'/' ∷ name) url rest found
                  ∙ ap (λ s. b'/' ∷ name ++ s) ih.prints;
              reads = ih.reads;
            }
      ]
  check_pattern-IsPrinted (dash ∷ tokens) url vs e =
      elim (Option-cases (strip_prefix (b'-' ∷ []) url)) [
        | inl missing ↦ absurd (ground arith)
        | inr (rest, found) ↦
            let ih = check_pattern-IsPrinted tokens rest vs (ground arith) in
            record {
              pieces = ih.pieces;
              fits = ih.fits;
              prints = strip_prefix-eq_some (b'-' ∷ []) url rest found ∙ ap (◌∷◌ b'-') ih.prints;
              reads = ih.reads;
            }
      ]
  check_pattern-IsPrinted (ident name ∷ tokens) url vs e =
      elim (Option-cases (strip_prefix name url)) [
        | inl missing ↦ absurd (ground arith)
        | inr (rest, found) ↦
            let ih = check_pattern-IsPrinted tokens rest vs (ground arith) in
            record {
              pieces = ih.pieces;
              fits = ih.fits;
              prints = strip_prefix-eq_some name url rest found ∙ ap (λ s. name ++ s) ih.prints;
              reads = ih.reads;
            }
      ]
