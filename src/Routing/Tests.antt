-- ===== src/Routing/Tests.antt =====
-- Routes that the theorems on the routing macros are applied to.
use rouille.Common.{
  List, strip_prefix, get_elem?, arith, ℕ, ◌≡◌, ◌≢◌, refl, inl, inr, true, false, Option, none,
  some, [], ◌∷◌, lacks-Lacks, Text, text, Bytes, text_eq, split_once,
}
use rouille.Http.Request.{Request, Bodies, header}
use rouille.Http.Response.{Response}
use rouille.Routing.{Route}
use rouille.Routing.OldStyle.{check_pattern, segment, slash_param, slash_typed_param, slash_ident}
use rouille.Routing.OldStyle.Matching.{render, values, check_pattern-render}
use rouille.Routing.OldStyle.Soundness.{IsPrinted, check_pattern-IsPrinted}
use rouille.Input.Priority.{priority_header_preferred}
use rouille.Input.Tests.{digits}
use rouille.Routing.Choice.Accepted.{accept-get_elem?}
use rouille.Routing.Choice.{accept, or_any, unwrap_or_zero, Handler}

abbrev request : Request
request = record {
  method = text "GET";
  url = text "/b?x";
  headers = [];
  https = false;
  shared_data = 0;
  remote_addr = none;
}

-- A branch with a path and no parameter.
abbrev at_path : Text → ℕ → Route ℕ
at_path path n = record {
  method = text "GET";
  handler = λ url. elim (text_eq url path) [ true ↦ some (some n) | false ↦ some none ];
}

-- A branch that panics.
abbrev panicking : Route ℕ
panicking = record { method = text "GET"; handler = λ url. none }

-- Parameters are texts, and the decoding changes no byte.
abbrev as_text : Text → Option Text
as_text s = some s

abbrev as_it_is : Bytes → Text
as_it_is bytes = bytes

check_pattern-render_example :
    check_pattern as_text as_it_is
      (slash_ident (text "user") ∷ slash_param ∷ slash_typed_param ∷ [])
      (render
        (slash_ident (text "user") ∷ slash_param ∷ slash_typed_param ∷ [])
        (text "7" ∷ text "x" ∷ []))
    ≡ values as_text as_it_is
        (slash_ident (text "user") ∷ slash_param ∷ slash_typed_param ∷ [])
        (text "7" ∷ text "x" ∷ [])
unfolding text
check_pattern-render_example =
    check_pattern-render as_text as_it_is
      (slash_ident (text "user") ∷ slash_param ∷ slash_typed_param ∷ []) (text "7" ∷ text "x" ∷ [])
      (
        lacks-Lacks b'/' (text "7") refl,
        inr (text "x", refl),
        (lacks-Lacks b'/' (text "x") refl, inl refl, tt),
      )

abbrev gives : Response → Handler
gives r bodies = (r, bodies)

abbrev no_bodies : Bodies
no_bodies i = none

is_not_404 : ◌≢◌ {A = ℕ} 406 404
is_not_404 e = omega arith

check_pattern-IsPrinted_example :
    IsPrinted as_text as_it_is
      (slash_ident (text "user") ∷ slash_param ∷ [])
      (text "/user/7")
      (text "7" ∷ [])
unfolding check_pattern text segment split_once strip_prefix
check_pattern-IsPrinted_example =
    check_pattern-IsPrinted as_text as_it_is (slash_ident (text "user") ∷ slash_param ∷ [])
      (text "/user/7") (text "7" ∷ []) refl

abbrev html_or_any : List (Text × ℕ)
html_or_any = (text "*/*", 2) ∷ []

accept-get_elem?_example :
    (branch : Text × ℕ) × (get_elem? ((text "text/html", 1) ∷ html_or_any) (
        unwrap_or_zero (
          priority_header_preferred digits
            (or_any (header request (text "Accept")))
            (text "text/html" ∷ text "*/*" ∷ [])))
      ≡ some branch)
    × (accept digits request ((text "text/html", 1) ∷ html_or_any) ≡ some branch.1)
accept-get_elem?_example = accept-get_elem? digits request (text "text/html", 1) html_or_any
