-- ===== src/Gateway/Cgi.antt =====
-- CGI programs, src/cgi.rs. A result `none` is a panic.
pub mod Output
use rouille.Common.{
  ℕ, zero, suc, ◌-◌, Bool, true, false, Option, none, some, List, [], ◌∷◌, ◌++◌, leb, if◌then◌else◌,
  ◌>>=◌, length, Bytes, Text, text, text_eq, split, split_once,
}
use rouille.Common.Utf8.{as_bytes}
use rouille.Common.Results.{Result, ok, err}
use rouille.Http.Body.{Reader, from_reader}
use rouille.Http.Request.{
  Request, Bodies, take_data, header, url, expect_remote_addr, raw_query_string,
}
use rouille.Http.Response.{Response}
use rouille.Gateway.Lines.{chain, read_headers, slice_from_1, parse_u16}

pub data CgiError : Type 0 where
  body_already_extracted io_error : CgiError

-- `Display`
unfoldable describe : CgiError → Text
describe body_already_extracted = text "the body of the request was already extracted"
describe io_error =
    text "could not read the body from the request, or could not execute the CGI program"

-- What is used of `Command` and `Child`; `none` is an I/O error. What is written to the standard
-- input is all of the body.
pub record Process : Type 1 where
  pub Command : Type 0
  pub Child : Type 0
  pub env : Text → Text → Command → Command
  pub piped : Command → Command
  pub spawn : Command → Option Child
  pub write_stdin : Bytes → Child → Option Child
  pub stdout_of : Child → Reader

-- `unwrap_or("")`
abbrev or_empty : Option Text → Text
or_empty none = []
or_empty (some v) = v

-- `&val[0..3]`, which panics if that is not the end of a character.
unfoldable pub prefix_of : ℕ → Text → Option Text
prefix_of zero s = some []
prefix_of (suc n) [] = none
prefix_of (suc n) (c ∷ s) =
    let width = length (as_bytes (c ∷ [])) in
    let rest = prefix_of (suc n - width) s in
    if leb width (suc n) then rest >>= (λ r. some (c ∷ r)) else none

-- `status_code` and `headers`
abbrev Head : Type 0
Head = ℕ × List (Text × Text)

abbrev on_pair : Text × Option Text → Head → Option (Result Head CgiError)
on_pair (name, none) head = none
on_pair (name, some after) (status_code, headers) = slice_from_1 after >>= λ val.
    if text_eq name (text "Status")
    then (prefix_of 3 val >>= parse_u16 >>= λ status. some (ok (status, headers)))
    else some (ok (status_code, headers ++ (name, val) ∷ []))

-- The body of the loop over the lines, for a line that is not empty.
unfoldable on_header : Text → Head → Option (Result Head CgiError)
unfolding prefix_of
on_header line head = on_pair (split_once b':' line) head

abbrev response_with : Bool → Head × Bytes → Response
response_with fails (head, rest) = record {
  status_code = head.0;
  headers = head.1;
  data_body = from_reader (record { content = rest; fails = fails });
  upgrade = none;
}

unfoldable read_output : Reader → Option (Result Response CgiError)
unfolding on_header read_headers
read_output stdout =
    chain (read_headers io_error on_header stdout.fails (split 0x0a stdout.content) (200, []))
      (λ out. some (ok (response_with stdout.fails out)))

module _ (percent_decode_lossy : Bytes → Text) (process : Process) where
  open process use {Command, Child, env, piped, spawn, write_stdin, stdout_of}

  -- The calls of `env`, in their order.
  abbrev environment : Request → Text → List (Text × Text)
  environment request remote_addr =
      (text "SERVER_SOFTWARE", text "rouille")
      ∷ (text "SERVER_NAME", text "localhost")
      ∷ (text "GATEWAY_INTERFACE", text "CGI/1.1")
      ∷ (text "SERVER_PROTOCOL", text "HTTP/1.1")
      ∷ (text "SERVER_PORT", text "80")
      ∷ (text "REQUEST_METHOD", request.method)
      ∷ (text "PATH_INFO", url percent_decode_lossy request)
      ∷ (text "SCRIPT_NAME", [])
      ∷ (text "QUERY_STRING", raw_query_string request)
      ∷ (text "REMOTE_ADDR", remote_addr)
      ∷ (text "AUTH_TYPE", [])
      ∷ (text "REMOTE_USER", [])
      ∷ (text "CONTENT_TYPE", or_empty (header request (text "Content-Type")))
      ∷ (text "CONTENT_LENGTH", or_empty (header request (text "Content-Length")))
      ∷ []

  abbrev with_env : List (Text × Text) → Command → Command
  with_env [] command = command
  with_env ((name, value) ∷ vars) command = with_env vars (env name value command)

  -- `io::copy` to the standard input
  abbrev copy : Reader → Child → Option Child
  copy body child = write_stdin body.content child >>= λ c. if body.fails then none else some c

  abbrev output_of : Option Child → Option (Result Response CgiError)
  output_of none = some (err io_error)
  output_of (some child) = read_output (stdout_of child)

  -- With the program, if it could be started, and the body, if it is still there.
  abbrev run_program : Option Child → Option Reader → Option (Result Response CgiError)
  run_program none body = some (err io_error)
  run_program (some child) none = some (err body_already_extracted)
  run_program (some child) (some body) = output_of (copy body child)

  abbrev bodies_after : Option Child → Request → Bodies → Bodies
  bodies_after none request bodies = bodies
  bodies_after (some child) request bodies = (take_data request bodies).1

  -- `remote_addr()` panics if the request has no address.
  unfoldable pub start_cgi : Command → Request → Bodies → Option (Result Response CgiError) × Bodies
  unfolding take_data read_output
  start_cgi command request bodies = elim (expect_remote_addr request) [
    | none ↦ (none, bodies)
    | some address ↦
        let child = spawn (piped (with_env (environment request address) command)) in
        (run_program child (take_data request bodies).0, bodies_after child request bodies)
  ]
