-- ===== src/Gateway/Proxy/Answers.antt =====
-- `proxy` and `full_proxy` of src/proxy.rs on a whole exchange.
use rouille.Common.{
  ℕ, ◌≡◌, refl, sym, ◌⊎◌, inl, inr, Bool, true, false, Option, none, some, List, [], ◌∷◌, ◌++◌,
  Bytes, Text, split_once, ◌>>=◌, Option-cases,
}
use mathlib.Core.Path.{subst}
use rouille.Common.Utf8.{from_utf8}
use rouille.Common.Results.{Result, ok, err}
use rouille.Http.Body.{Reader}
use rouille.Http.Request.{Request, Bodies}
use rouille.Http.Response.{Response}
use rouille.Gateway.Lines.{
  chain, strip_cr, unread, on_line, read_headers, FirstLine, no_line, broken, line_and,
  slice_from_1, parse_u16,
}
use rouille.Gateway.Proxy.{
  Tcp, ProxyConfig, ProxyError, body_already_extracted, io_error, http_parse_error, on_header,
  push_header, status_of, read_response, after_code, after_status, after_first_line, full_proxy,
  full_result, answered, exchange, up_to_blank,
}

-- No result is that the body was already extracted.
abbrev Answers : {S : Type 0} → Option (Result S ProxyError) → Type 0
Answers none = Unit
Answers (some (ok s)) = Unit
Answers (some (err io_error)) = Unit
Answers (some (err http_parse_error)) = Unit
Answers (some (err body_already_extracted)) = ⊥

chain-Answers :
    {S T : Type 0} (r : Option (Result S ProxyError)) (k : S → Option (Result T ProxyError))
    → Answers r
    → ((s : S) → Answers (k s))
    → Answers (chain r k)
chain-Answers none k h g = tt
chain-Answers (some (ok s)) k h g = g s
chain-Answers (some (err io_error)) k h g = tt
chain-Answers (some (err http_parse_error)) k h g = tt
chain-Answers (some (err body_already_extracted)) k h g = absurd h

push_header-Answers :
    (cut : Text × Option Text) (s : List (Text × Text)) → Answers (push_header cut s)
push_header-Answers (header, none) s = tt
push_header-Answers (header, some val) s = elim (Option-cases (slice_from_1 val)) [
  | inl e ↦ subst (λ o. Answers (o >>= λ v. some (ok (s ++ (header, v) ∷ [])))) (sym e) tt
  | inr (v, e) ↦ subst (λ o. Answers (o >>= λ w. some (ok (s ++ (header, w) ∷ [])))) (sym e) tt
]

on_line-Answers :
    (line : Option Text) (rest : Bytes)
    (later : List (Text × Text) → Option (Result (List (Text × Text) × Bytes) ProxyError))
    (s : List (Text × Text))
    → ((s' : List (Text × Text)) → Answers (later s'))
    → Answers (on_line io_error on_header line rest later s)
unfolding on_line on_header
on_line-Answers none rest later s h = tt
on_line-Answers (some []) rest later s h = tt
on_line-Answers (some (c ∷ line)) rest later s h =
    chain-Answers _ later (push_header-Answers (split_once b':' (c ∷ line)) s) h

read_headers-Answers :
    (fails : Bool) (pieces : List Bytes) (s : List (Text × Text))
    → Answers (read_headers io_error on_header fails pieces s)
unfolding read_headers
read_headers-Answers fails [] s = tt
read_headers-Answers true (last ∷ []) s = tt
read_headers-Answers false (last ∷ []) s =
    on_line-Answers (from_utf8 last) [] (λ s'. some (ok (s', []))) s (λ s'. tt)
read_headers-Answers fails (p ∷ q ∷ ps) s =
    on_line-Answers (from_utf8 (strip_cr p)) (unread (q ∷ ps)) _ s
      (read_headers-Answers fails (q ∷ ps))

after_code-Answers :
    (fails : Bool) (pieces : List Bytes) (code : Option ℕ) → Answers (after_code fails pieces code)
after_code-Answers fails pieces none = tt
after_code-Answers fails pieces (some code) =
    chain-Answers _ _ (read_headers-Answers fails pieces []) (λ out. tt)

after_status-Answers :
    (fails : Bool) (pieces : List Bytes) (rest : Option Text)
    → Answers (after_status fails pieces (up_to_blank rest))
after_status-Answers fails pieces none = tt
after_status-Answers fails pieces (some rest) =
    after_code-Answers fails pieces (parse_u16 (split_once b' ' rest).0)

after_first_line-Answers : (fails : Bool) (line : FirstLine) → Answers (after_first_line fails line)
unfolding status_of
after_first_line-Answers fails no_line = tt
after_first_line-Answers fails broken = tt
after_first_line-Answers fails (line_and line pieces) =
    after_status-Answers fails pieces (split_once b' ' line).1

read_response-Answers : (socket : Reader) → Answers (read_response socket)
unfolding read_response
read_response-Answers socket = after_first_line-Answers socket.fails _

module _ {A : Type 0} (tcp : Tcp A) where
  abbrev connected : ProxyConfig A → Option tcp.Socket
  connected config = tcp.connect config.addr >>= tcp.set_read_timeout >>= tcp.set_write_timeout

  answered-Answers : (socket : Option tcp.Socket) → Answers (answered tcp socket)
  answered-Answers none = tt
  answered-Answers (some socket) = read_response-Answers (tcp.reader_of socket)

  exchange-Answers :
      (request : Request) (config : ProxyConfig A) (connected : Option tcp.Socket)
      (data_reader : Reader)
      → Answers (exchange tcp request config connected (some data_reader))
  exchange-Answers request config none data_reader = tt
  exchange-Answers request config (some socket) data_reader = answered-Answers _

  full-Answers :
      (r : Option (Result Response ProxyError))
      → Answers r
      → ((r >>= λ x. some (full_result x)) ≡ none)
        ⊎ ((response : Response) × ((r >>= λ x. some (full_result x)) ≡ some (ok response)))
  full-Answers none h = inl refl
  full-Answers (some (ok response)) h = inr (response, refl)
  full-Answers (some (err io_error)) h = inr (_, refl)
  full-Answers (some (err http_parse_error)) h = inr (_, refl)
  full-Answers (some (err body_already_extracted)) h = absurd h

  -- If the body of the request has not been extracted, then whatever the other server does,
  -- `full_proxy` panics or it gives a response: it gives no error.
  pub full_proxy-ok :
      (request : Request) (config : ProxyConfig A) (bodies : Bodies) (body : Reader)
      → bodies request.shared_data ≡ some body
      → ((full_proxy tcp request config bodies).0 ≡ none)
        ⊎ ((response : Response) × ((full_proxy tcp request config bodies).0 ≡ some (ok response)))
  unfolding full_proxy
  full_proxy-ok request config bodies body there = full-Answers _ (
      subst (λ b. Answers (exchange tcp request config (connected config) b)) (sym there)
        (exchange-Answers request config (connected config) body))
