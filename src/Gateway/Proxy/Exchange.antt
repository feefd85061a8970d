-- ===== src/Gateway/Proxy/Exchange.antt =====
-- A whole exchange of `proxy` in src/proxy.rs with a server that answers.
use rouille.Common.{
  ℕ, ◌≡◌, refl, sym, ap, ◌∙◌, Bool, none, some, List, [], ◌∷◌, ◌++◌, map, Bytes, Text, arith, Lacks,
  split_once_at, ◌>>=◌,
}
use mathlib.Core.Path.{fun_ext}
use rouille.Common.Results.{ok}
use rouille.Http.Body.{Reader, from_reader}
use rouille.Http.Request.{Request, Bodies}
use rouille.Gateway.Lines.{chain, slice_from_1, parse_u16}
use rouille.Gateway.Lines.Heads.{IsLine, AreLines, print_head, run_headers, chain_assoc}
use rouille.Gateway.Proxy.{
  Tcp, ProxyConfig, io_error, on_header, push_header, read_response, response_with, write_request,
  proxy, full_proxy, full_result, answered,
}
use rouille.Gateway.Proxy.Heads.{
  status_line, header_text, HaveNames, run_headers-map, read_response-print_head,
}

run_headers-append :
    (ls ms : List Text) (s : List (Text × Text))
    → run_headers io_error on_header (ls ++ ms) s
      ≡ chain (run_headers io_error on_header ls s) (run_headers io_error on_header ms)
run_headers-append [] ms s = refl
run_headers-append (l ∷ ls) ms s =
    ap (chain (on_header l s)) (fun_ext (run_headers-append ls ms))
    ∙ sym (
        chain_assoc (on_header l s) (run_headers io_error on_header ls)
          (run_headers io_error on_header ms))

on_header_empty :
    (name : Text) (s : List (Text × Text))
    → Lacks b':' name
    → on_header (name ++ b':' ∷ []) s ≡ none
unfolding on_header slice_from_1
on_header_empty name s h = ap (λ cut. push_header cut s) (split_once_at b':' name [] h)

module _ {A : Type 0} (tcp : Tcp A) where
  open tcp use {Socket, connect, set_read_timeout, set_write_timeout, reader_of}

  -- The request is sent and the other server answers with these bytes, behind which the connection
  -- may fail.
  pub record IsAnswered (request : Request) (config : ProxyConfig A) (bodies : Bodies)
      (answer : Reader) : Type 0 where
    pub socket : Socket
    pub written : Socket
    pub body : Reader
    pub is_connected :
        (connect config.addr >>= set_read_timeout >>= set_write_timeout) ≡ some socket
    pub is_there : bodies request.shared_data ≡ some body
    pub is_sent : write_request tcp request config.replace_host body socket ≡ some written
    pub is_answer : reader_of written ≡ answer

  pub proxy-IsAnswered :
      (request : Request) (config : ProxyConfig A) (bodies : Bodies) (answer : Reader)
      → IsAnswered request config bodies answer
      → (proxy tcp request config bodies).0 ≡ read_response answer
  unfolding proxy
  proxy-IsAnswered request config bodies answer h =
      ground (arith, h.is_connected, h.is_there, h.is_sent, h.is_answer)

  -- If the other server answers with a first line of a version, a status that is a number up to
  -- 65535 and a reason, with headers `name: value`, an empty line and a body, all lines being text
  -- that ends in a carriage return and a line feed, then `proxy` gives a response with this status,
  -- these headers in their order, and this body of unknown length.
  pub proxy-print_head :
      (request : Request) (config : ProxyConfig A) (bodies : Bodies) (fails : Bool)
      (version status reason : Text) (code : ℕ) (headers : List (Text × Text)) (body : Bytes)
      → IsAnswered request config bodies (record {
        content = print_head (status_line version status reason ∷ map header_text headers) body;
        fails = fails;
      })
      → Lacks b' ' version
      → Lacks b' ' status
      → parse_u16 status ≡ some code
      → IsLine (status_line version status reason)
      → AreLines (map header_text headers)
      → HaveNames headers
      → (proxy tcp request config bodies).0
        ≡ some (
            ok (record {
              status_code = code;
              headers = headers;
              data_body = record {
                reader = record { content = body; fails = fails };
                data_length = none;
              };
              upgrade = none;
            }))
  unfolding from_reader
  proxy-print_head request config bodies fails version status reason code headers body answered h g
        e is_line are_lines names =
      proxy-IsAnswered request config bodies _ answered
      ∙ read_response-print_head fails version status reason code (map header_text headers) body h g
          e is_line are_lines
      ∙ ap (λ r. chain r (λ hs. some (ok (response_with code fails (hs, body)))))
          (run_headers-map headers [] names)

  -- If the other server answers with a first line of a version, a status that is a number up to
  -- 65535 and a reason, with headers `name: value`, and then with a header that has nothing behind
  -- the colon, all lines being text that ends in a carriage return and a line feed, then `proxy`
  -- and `full_proxy` panic, whatever lines and body follow.
  pub proxy_empty_value :
      (request : Request) (config : ProxyConfig A) (bodies : Bodies) (fails : Bool)
      (version status reason : Text) (code : ℕ) (headers : List (Text × Text)) (name : Text)
      (more : List Text) (body : Bytes)
      → IsAnswered request config bodies (record {
        content =
            print_head
              (status_line version status reason
                ∷ (map header_text headers ++ (name ++ b':' ∷ []) ∷ more))
              body;
        fails = fails;
      })
      → Lacks b' ' version
      → Lacks b' ' status
      → parse_u16 status ≡ some code
      → IsLine (status_line version status reason)
      → AreLines (map header_text headers ++ (name ++ b':' ∷ []) ∷ more)
      → HaveNames headers
      → Lacks b':' name
      → ((proxy tcp request config bodies).0 ≡ none)
        × ((full_proxy tcp request config bodies).0 ≡ none)
  unfolding full_proxy
  proxy_empty_value request config bodies fails version status reason code headers name more body
        answered h g e is_line are_lines names no_colon =
      let panics =
        proxy-IsAnswered request config bodies _ answered
        ∙ read_response-print_head fails version status reason code
            (map header_text headers ++ (name ++ b':' ∷ []) ∷ more) body h g e is_line are_lines
        ∙ ap (λ r. chain r (λ hs. some (ok (response_with code fails (hs, body)))))
            (run_headers-append (map header_text headers) ((name ++ b':' ∷ []) ∷ more) []
              ∙ ap (λ r. chain r (run_headers io_error on_header ((name ++ b':' ∷ []) ∷ more)))
                  (run_headers-map headers [] names)
              ∙ ap (λ r. chain r (run_headers io_error on_header more))
                  (on_header_empty name headers no_colon)) in
      (panics, ap (λ r. r >>= λ x. some (full_result x)) panics)
