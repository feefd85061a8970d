-- ===== src/Gateway/Lines/Heads.antt =====
-- A head that is printed line by line is read line by line (src/proxy.rs and src/cgi.rs).
use rouille.Common.{
  ◌≡◌, refl, sym, ap, ◌∙◌, Bool, false, Option, none, some, List, [], ◌∷◌, ◌++◌, append_assoc,
  is_empty, Bytes, Text, arith, split, split_at, Lacks, ◌==◌, Bool-cases, inl, inr, ℕ,
}
use mathlib.Core.Path.{fun_ext}
use rouille.Common.Utf8.{as_bytes, from_utf8, IsText, from_utf8-as_bytes}
use rouille.Common.Results.{Result, ok, err}
use rouille.Gateway.Lines.{chain, strip_cr, unread, on_line, read_headers}

-- A line that is text, not empty and without a line feed.
abbrev pub IsLine : Text → Type 0
IsLine line = IsText line × (is_empty line ≡ false) × Lacks 0x0a (as_bytes line)

abbrev pub AreLines : List Text → Type 0
AreLines [] = Unit
AreLines (l ∷ ls) = IsLine l × AreLines ls

abbrev print_line : Text → Bytes → Bytes
print_line line rest = as_bytes line ++ 0x0d ∷ 0x0a ∷ rest

-- The lines, the empty line, and what follows.
abbrev pub print_head : List Text → Bytes → Bytes
print_head [] body = 0x0d ∷ 0x0a ∷ body
print_head (l ∷ ls) body = print_line l (print_head ls body)

Lacks-append : (sep : ℕ) (xs ys : Bytes) → Lacks sep xs → Lacks sep ys → Lacks sep (xs ++ ys)
Lacks-append sep [] ys h g = g
Lacks-append sep (x ∷ xs) ys (ne, h) g = (ne, Lacks-append sep xs ys h g)

pub strip_cr-append : (p : Bytes) → strip_cr (p ++ 0x0d ∷ []) ≡ p
unfolding strip_cr
strip_cr-append [] = ground arith
strip_cr-append (c ∷ []) = ground arith
strip_cr-append (c ∷ d ∷ s) = ap (◌∷◌ c) (strip_cr-append (d ∷ s))

-- A text splits into one piece at least.
pub split-cons : (sep : ℕ) (s : Bytes) → (p : Bytes) × (ps : List Bytes) × (split sep s ≡ p ∷ ps)
unfolding split
split-cons sep [] = ([], [], refl)
split-cons sep (c ∷ s) = elim (Bool-cases (c == sep)) [
  | inl same ↦ ([], split sep s, ground arith)
  | inr other ↦ let (p, ps, e) = split-cons sep s in (c ∷ p, ps, ground (arith, e))
]

unread-attach : (c : ℕ) (p : Bytes) (ps : List Bytes) → unread ((c ∷ p) ∷ ps) ≡ c ∷ unread (p ∷ ps)
unfolding unread
unread-attach c p [] = refl
unread-attach c p (q ∷ ps) = refl

unread-separator :
    (ps qs : List Bytes) (q : Bytes) → ps ≡ q ∷ qs → unread ([] ∷ ps) ≡ 0x0a ∷ unread ps
unfolding unread
unread-separator [] qs q e = cc
unread-separator (p ∷ ps) qs q e = refl

unread-split : (s : Bytes) → unread (split 0x0a s) ≡ s
unfolding unread split
unread-split [] = refl
unread-split (c ∷ s) =
    let (p, ps, e) = split-cons 0x0a s in
    elim (Bool-cases (c == 0x0a)) [
      | inl same ↦ ground (arith, unread-separator (split 0x0a s) ps p e, unread-split s)
      | inr other ↦ ground (arith, e, unread-attach c p ps, unread-split s)
    ]

pub split-print_line :
    (p rest : Bytes)
    → Lacks 0x0a p
    → split 0x0a (p ++ 0x0d ∷ 0x0a ∷ rest) ≡ (p ++ 0x0d ∷ []) ∷ split 0x0a rest
split-print_line p rest h =
    ap (split 0x0a) (sym (append_assoc p (0x0d ∷ []) (0x0a ∷ rest)))
    ∙ split_at 0x0a (p ++ 0x0d ∷ []) rest (Lacks-append 0x0a p (0x0d ∷ []) h (λ e. omega arith, tt))

pub chain_assoc :
    {S T U E : Type 0} (r : Option (Result S E)) (k : S → Option (Result T E))
    (j : T → Option (Result U E))
    → chain (chain r k) j ≡ chain r (λ s. chain (k s) j)
chain_assoc none k j = refl
chain_assoc (some (ok s)) k j = refl
chain_assoc (some (err e)) k j = refl

module _ {S E : Type 0} (io_error : E) (on_header : Text → S → Option (Result S E)) where
  abbrev pub run_headers : List Text → S → Option (Result S E)
  run_headers [] s = some (ok s)
  run_headers (l ∷ ls) s = chain (on_header l s) (run_headers ls)

  on_line_lem :
      (line : Text) (rest : Bytes) (later : S → Option (Result (S × Bytes) E)) (s : S)
      → IsLine line
      → on_line io_error on_header (from_utf8 (strip_cr (as_bytes line ++ 0x0d ∷ []))) rest later s
        ≡ chain (on_header line s) later
  unfolding on_line
  on_line_lem line rest later s (is_text, not_empty, h) =
      ground (arith, strip_cr-append (as_bytes line), from_utf8-as_bytes line is_text)

  read_headers-empty :
      (fails : Bool) (pieces qs : List Bytes) (q : Bytes) (s : S)
      → pieces ≡ q ∷ qs
      → read_headers io_error on_header fails ((0x0d ∷ []) ∷ pieces) s
        ≡ some (ok (s, unread pieces))
  unfolding read_headers on_line strip_cr from_utf8
  read_headers-empty fails [] qs q s e = cc
  read_headers-empty fails (p ∷ ps) qs q s e = refl

  read_headers-line :
      (fails : Bool) (line : Text) (pieces qs : List Bytes) (q : Bytes) (s : S)
      → IsLine line
      → pieces ≡ q ∷ qs
      → read_headers io_error on_header fails ((as_bytes line ++ 0x0d ∷ []) ∷ pieces) s
        ≡ chain (on_header line s) (read_headers io_error on_header fails pieces)
  unfolding read_headers
  read_headers-line fails line [] qs q s h e = cc
  read_headers-line fails line (p ∷ ps) qs q s h e =
      on_line_lem line (unread (p ∷ ps)) (read_headers io_error on_header fails (p ∷ ps)) s h

  -- The printed lines are handled one by one; what follows the empty line is left.
  pub read_headers-print_head :
      (fails : Bool) (lines : List Text) (body : Bytes) (s : S)
      → AreLines lines
      → read_headers io_error on_header fails (split 0x0a (print_head lines body)) s
        ≡ chain (run_headers lines s) (λ s'. some (ok (s', body)))
  read_headers-print_head fails [] body s h =
      let (q, qs, e) = split-cons 0x0a body in
      ap (λ pieces. read_headers io_error on_header fails pieces s) (split-print_line [] body tt)
      ∙ read_headers-empty fails (split 0x0a body) qs q s e
      ∙ ap (λ rest. some (ok (s, rest))) (unread-split body)
  read_headers-print_head fails (l ∷ ls) body s (h, hs) =
      let (q, qs, e) = split-cons 0x0a (print_head ls body) in
      ap (λ pieces. read_headers io_error on_header fails pieces s)
        (split-print_line (as_bytes l) (print_head ls body) h.2)
      ∙ read_headers-line fails l (split 0x0a (print_head ls body)) qs q s h e
      ∙ ap (chain (on_header l s)) (fun_ext (λ s'. read_headers-print_head fails ls body s' hs))
      ∙ sym (chain_assoc (on_header l s) (run_headers ls) (λ s'. some (ok (s', body))))
