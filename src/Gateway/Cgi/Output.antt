-- ===== src/Gateway/Cgi/Output.antt =====
-- The response that `start_cgi` of src/cgi.rs makes of a printed output.
use rouille.Common.{
  ℕ, ◌≡◌, refl, sym, ap, ◌∙◌, Bool, false, none, some, List, [], ◌∷◌, ◌++◌, append-nil,
  append_assoc, map, Bytes, Text, text, text_eq, arith, Lacks, lacks-Lacks, split_once_at,
}
use rouille.Common.Results.{ok}
use rouille.Http.Body.{from_reader}
use rouille.Http.Request.{Request, Bodies}
use rouille.Gateway.Lines.{chain, slice_from_1, parse_u16}
use rouille.Gateway.Lines.Heads.{
  AreLines, print_head, run_headers, read_headers-print_head, chain_assoc,
}
use rouille.Gateway.Proxy.Heads.{header_text}
use rouille.Gateway.Cgi.{
  Head, prefix_of, on_pair, on_header, response_with, read_output, Process, environment, with_env,
  start_cgi, io_error,
}

-- Each header has a name without a colon that is not Status.
abbrev AreOrdinary : List (Text × Text) → Type 0
AreOrdinary [] = Unit
AreOrdinary ((name, value) ∷ hs) =
    Lacks b':' name × (text_eq name (text "Status") ≡ false) × AreOrdinary hs

on_header-header_text :
    (name value : Text) (head : Head)
    → Lacks b':' name
    → on_header (header_text (name, value)) head ≡ on_pair (name, some (b' ' ∷ value)) head
unfolding on_header
on_header-header_text name value head h =
    ap (λ cut. on_pair cut head) (split_once_at b':' name (b' ' ∷ value) h)

ordinary :
    (name value : Text) (status : ℕ) (headers : List (Text × Text))
    → text_eq name (text "Status") ≡ false
    → on_pair (name, some (b' ' ∷ value)) (status, headers)
      ≡ some (ok (status, headers ++ (name, value) ∷ []))
unfolding slice_from_1
ordinary name value status headers e = ground (arith, e)

status_header :
    (value code_text : Text) (code status : ℕ) (headers : List (Text × Text))
    → prefix_of 3 value ≡ some code_text
    → parse_u16 code_text ≡ some code
    → on_pair (text "Status", some (b' ' ∷ value)) (status, headers) ≡ some (ok (code, headers))
unfolding slice_from_1 text text_eq
status_header value code_text code status headers e f = ground (arith, e, f)

run_headers-map :
    (hs headers : List (Text × Text)) (status : ℕ)
    → AreOrdinary hs
    → run_headers io_error on_header (map header_text hs) (status, headers)
      ≡ some (ok (status, headers ++ hs))
run_headers-map [] headers status h = ap (λ hs. some (ok (status, hs))) (sym (append-nil headers))
run_headers-map ((name, value) ∷ hs) headers status (h, other, rest) =
    ap (λ r. chain r (run_headers io_error on_header (map header_text hs)))
      (on_header-header_text name value (status, headers) h
        ∙ ordinary name value status headers other)
    ∙ run_headers-map hs (headers ++ (name, value) ∷ []) status rest
    ∙ ap (λ all. some (ok (status, all))) (append_assoc headers ((name, value) ∷ []) hs)

Status-Lacks : Lacks b':' (text "Status")
unfolding text
Status-Lacks = lacks-Lacks b':' (text "Status") refl

status_first :
    (status code_text : Text) (code : ℕ) (headers : List (Text × Text))
    → prefix_of 3 status ≡ some code_text
    → parse_u16 code_text ≡ some code
    → AreOrdinary headers
    → run_headers io_error on_header
        (header_text (text "Status", status) ∷ map header_text headers)
        (200, [])
      ≡ some (ok (code, headers))
status_first status code_text code headers p e names =
    ap (λ r. chain r (run_headers io_error on_header (map header_text headers)))
      (on_header-header_text (text "Status") status (200, []) Status-Lacks
        ∙ status_header status code_text code 200 [] p e)
    ∙ run_headers-map headers [] code names

read_output-print_head :
    (fails : Bool) (lines : List Text) (body : Bytes)
    → AreLines lines
    → read_output (record { content = print_head lines body; fails = fails })
      ≡ chain
          (run_headers io_error on_header lines (200, []))
          (λ head. some (ok (response_with fails (head, body))))
unfolding read_output
read_output-print_head fails lines body h =
    ap (λ r. chain r (λ out. some (ok (response_with fails out))))
      (read_headers-print_head io_error on_header fails lines body (200, []) h)
    ∙ chain_assoc (run_headers io_error on_header lines (200, [])) (λ s'. some (ok (s', body)))
        (λ out. some (ok (response_with fails out)))

module _ (percent_decode_lossy : Bytes → Text) (process : Process) where
  open process use {Command, Child, env, piped, spawn, write_stdin, stdout_of}

  start_cgi-read_output :
      (command : Command) (request : Request) (bodies : Bodies) (address : Text) (child fed : Child)
      (input : Bytes)
      → request.remote_addr ≡ some address
      → spawn (
          piped (
            with_env percent_decode_lossy process
              (environment percent_decode_lossy process request address)
              command))
        ≡ some child
      → bodies request.shared_data ≡ some (record { content = input; fails = false })
      → write_stdin input child ≡ some fed
      → (start_cgi percent_decode_lossy process command request bodies).0
        ≡ read_output (stdout_of fed)
  unfolding start_cgi
  start_cgi-read_output command request bodies address child fed input addressed started there
        taken =
      ground (arith, addressed, started, there, taken)

  -- If a request with an address and a body that can be read is given to a program that starts and
  -- takes the body, and the program prints a header Status that begins with a number of three
  -- bytes, other headers `name: value`, an empty line and a body, all lines being text that ends
  -- in a carriage return and a line feed, then `start_cgi` gives a response with this status,
  -- these other headers in their order, and this body of unknown length.
  pub start_cgi-print_head :
      (command : Command) (request : Request) (bodies : Bodies) (address : Text) (child fed : Child)
      (input : Bytes) (fails : Bool) (status code_text : Text) (code : ℕ)
      (headers : List (Text × Text)) (body : Bytes)
      → request.remote_addr ≡ some address
      → spawn (
          piped (
            with_env percent_decode_lossy process
              (environment percent_decode_lossy process request address)
              command))
        ≡ some child
      → bodies request.shared_data ≡ some (record { content = input; fails = false })
      → write_stdin input child ≡ some fed
      → stdout_of fed ≡ record {
        content = print_head (header_text (text "Status", status) ∷ map header_text headers) body;
        fails = fails;
      }
      → prefix_of 3 status ≡ some code_text
      → parse_u16 code_text ≡ some code
      → AreLines (header_text (text "Status", status) ∷ map header_text headers)
      → AreOrdinary headers
      → (start_cgi percent_decode_lossy process command request bodies).0
        ≡ some (
            ok (record {
              status_code = code;
              headers = headers;
              data_body = record {
                reader = record { content = body; fails = fails };
                data_length = none;
              };
              upgrade = none;
            }))
  unfolding start_cgi from_reader
  start_cgi-print_head command request bodies address child fed input fails status code_text code
        headers body addressed started there taken printed p e are_lines names =
      start_cgi-read_output command request bodies address child fed input addressed started there
        taken
      ∙ ap read_output printed
      ∙ read_output-print_head fails (header_text (text "Status", status) ∷ map header_text headers)
          body are_lines
      ∙ ap (λ r. chain r (λ head. some (ok (response_with fails (head, body)))))
          (status_first status code_text code headers p e names)
