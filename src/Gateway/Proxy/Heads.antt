-- ===== src/Gateway/Proxy/Heads.antt =====
-- The response that `proxy` of src/proxy.rs makes of a printed response.
use rouille.Common.{
  ℕ, ◌≡◌, sym, ap, ◌∙◌, Bool, some, List, [], ◌∷◌, ◌++◌, append-nil, append_assoc, map, Bytes, Text,
  arith, Lacks, split, split_once_at,
}
use rouille.Common.Utf8.{as_bytes, from_utf8-as_bytes}
use rouille.Common.Results.{ok}
use rouille.Gateway.Lines.{chain, first_line, line_and, slice_from_1, parse_u16}
use rouille.Gateway.Lines.Heads.{
  IsLine, AreLines, print_head, run_headers, read_headers-print_head, chain_assoc, split-print_line,
  split-cons, strip_cr-append,
}
use rouille.Gateway.Proxy.{
  on_header, push_header, status_of, read_response, response_with, after_code, after_status,
  after_first_line, io_error,
}

-- The first line of a response, and a header.
abbrev pub status_line : Text → Text → Text → Text
status_line version status reason = version ++ b' ' ∷ (status ++ b' ' ∷ reason)

abbrev pub header_text : Text × Text → Text
header_text (name, value) = name ++ b':' ∷ b' ' ∷ value

-- No name of a header has a colon.
abbrev pub HaveNames : List (Text × Text) → Type 0
HaveNames [] = Unit
HaveNames ((name, value) ∷ hs) = Lacks b':' name × HaveNames hs

status_of-status_line :
    (version status reason : Text)
    → Lacks b' ' version
    → Lacks b' ' status
    → status_of (status_line version status reason) ≡ ok status
unfolding status_of
status_of-status_line version status reason h g = ground (
  arith,
  split_once_at b' ' version (status ++ b' ' ∷ reason) h,
  split_once_at b' ' status reason g,
)

on_header-header_text :
    (name value : Text) (headers : List (Text × Text))
    → Lacks b':' name
    → on_header (header_text (name, value)) headers ≡ some (ok (headers ++ (name, value) ∷ []))
unfolding on_header slice_from_1
on_header-header_text name value headers h =
    ap (λ cut. push_header cut headers) (split_once_at b':' name (b' ' ∷ value) h)

pub run_headers-map :
    (hs headers : List (Text × Text))
    → HaveNames hs
    → run_headers io_error on_header (map header_text hs) headers ≡ some (ok (headers ++ hs))
run_headers-map [] headers h = ap (λ hs. some (ok hs)) (sym (append-nil headers))
run_headers-map ((name, value) ∷ hs) headers (h, rest) =
    ap (λ r. chain r (run_headers io_error on_header (map header_text hs)))
      (on_header-header_text name value headers h)
    ∙ run_headers-map hs (headers ++ (name, value) ∷ []) rest
    ∙ ap (λ all. some (ok all)) (append_assoc headers ((name, value) ∷ []) hs)

first_line-print_head :
    (fails : Bool) (line : Text) (lines : List Text) (body : Bytes)
    → IsLine line
    → first_line fails (split 0x0a (print_head (line ∷ lines) body))
      ≡ line_and line (split 0x0a (print_head lines body))
unfolding first_line
first_line-print_head fails line lines body h =
    let (q, qs, e) = split-cons 0x0a (print_head lines body) in
    ground (
      arith,
      e,
      split-print_line (as_bytes line) (print_head lines body) h.2,
      strip_cr-append (as_bytes line),
      from_utf8-as_bytes line h.0,
    )

-- A printed response, by what its headers come to.
pub read_response-print_head :
    (fails : Bool) (version status reason : Text) (code : ℕ) (lines : List Text) (body : Bytes)
    → Lacks b' ' version
    → Lacks b' ' status
    → parse_u16 status ≡ some code
    → IsLine (status_line version status reason)
    → AreLines lines
    → read_response (record {
      content = print_head (status_line version status reason ∷ lines) body;
      fails = fails;
    })
      ≡ chain
          (run_headers io_error on_header lines [])
          (λ headers. some (ok (response_with code fails (headers, body))))
unfolding read_response
read_response-print_head fails version status reason code lines body h g e is_line are_lines =
    ap (after_first_line fails)
      (first_line-print_head fails (status_line version status reason) lines body is_line)
    ∙ ap (after_status fails (split 0x0a (print_head lines body)))
        (status_of-status_line version status reason h g)
    ∙ ap (after_code fails (split 0x0a (print_head lines body))) e
    ∙ ap (λ r. chain r (λ out. some (ok (response_with code fails out))))
        (read_headers-print_head io_error on_header fails lines body [] are_lines)
    ∙ chain_assoc (run_headers io_error on_header lines []) (λ s'. some (ok (s', body)))
        (λ out. some (ok (response_with code fails out)))
