-- ===== src/Gateway/Proxy/Requests.antt =====
-- The request that `proxy` in src/proxy.rs sends to the other server.
use rouille.Common.{
  ◌≡◌, refl, sym, ap, ◌∙◌, false, Bool-cases, inl, inr, if◌then◌else◌, Option, some, List, [], ◌∷◌,
  ◌++◌, ◌>>=◌, map, append-nil, append_assoc, Bytes, Text, text, text_eq,
}
use rouille.Common.Utf8.{as_bytes, as_bytes-append}
use rouille.Http.Body.{Reader}
use rouille.Http.Request.{Request, Bodies}
use rouille.Gateway.Lines.Heads.{print_head}
use rouille.Gateway.Proxy.{
  Tcp, ProxyConfig, read_response, write_headers, write_request, sent_value, header_line, proxy,
}
use rouille.Gateway.Proxy.Heads.{header_text}
use rouille.Gateway.Proxy.Exchange.{proxy-IsAnswered}

abbrev pub request_line : Request → Text
request_line request = request.method ++ text " " ++ request.url ++ text " HTTP/1.1"

-- Lines one behind the other.
abbrev print_lines : List Text → Bytes
print_lines [] = []
print_lines (l ∷ ls) = as_bytes l ++ 0x0d ∷ 0x0a ∷ print_lines ls

print_head-print_lines :
    (ls ms : List Text) (body : Bytes)
    → print_lines ls ++ print_head ms body ≡ print_head (ls ++ ms) body
print_head-print_lines [] ms body = refl
print_head-print_lines (l ∷ ls) ms body =
    append_assoc (as_bytes l) (0x0d ∷ 0x0a ∷ print_lines ls) (print_head ms body)
    ∙ ap (λ rest. as_bytes l ++ 0x0d ∷ 0x0a ∷ rest) (print_head-print_lines ls ms body)

abbrev pub close : Text × Text
close = (text "Connection", text "close")

request_line_lem :
    (request : Request)
    → as_bytes (request.method ++ text " " ++ request.url ++ text " HTTP/1.1\r\n")
      ≡ as_bytes (request_line request) ++ 0x0d ∷ 0x0a ∷ []
unfolding text as_bytes
request_line_lem request =
    ap as_bytes (
      sym
        (append_assoc (request.method ++ text " " ++ request.url) (text " HTTP/1.1") (text "\r\n")))
    ∙ as_bytes-append (request_line request) (text "\r\n")

-- The pieces that are written, one behind the other.
assembled :
    (request : Request) (headers : List Text) (body : Bytes)
    → (as_bytes (request.method ++ text " " ++ request.url ++ text " HTTP/1.1\r\n")
        ++ print_lines headers
        ++ as_bytes (text "Connection: close\r\n\r\n")
        ++ body)
      ≡ print_head (request_line request ∷ headers ++ header_text close ∷ []) body
unfolding text as_bytes
assembled request headers body =
    let line = as_bytes (request_line request) ++ 0x0d ∷ 0x0a ∷ [] in
    let end = as_bytes (text "Connection: close\r\n\r\n") in
    ap (λ s. s ++ print_lines headers ++ end ++ body) (request_line_lem request)
    ∙ append_assoc (line ++ print_lines headers) end body
    ∙ append_assoc line (print_lines headers) (end ++ body)
    ∙ ap (◌++◌ line) (print_head-print_lines headers (header_text close ∷ []) body)
    ∙ append_assoc (as_bytes (request_line request)) (0x0d ∷ 0x0a ∷ [])
        (print_head (headers ++ header_text close ∷ []) body)

module _ {A : Type 0} (tcp : Tcp A) where
  open tcp use {Socket, connect, set_read_timeout, set_write_timeout, write_all, reader_of}

  -- The headers that are sent: not those named `Connection`, and for `Host` the value of the
  -- configuration, if there is one.
  abbrev pub forwarded : Option Text → List (Text × Text) → List (Text × Text)
  forwarded replace_host [] = []
  forwarded replace_host ((header, value) ∷ headers) =
      let rest = forwarded replace_host headers in
      if text_eq header (text "Connection")
      then rest
      else (header, sent_value tcp replace_host (header, value)) ∷ rest

  -- A server that can be connected to, takes all that is sent, and answers to what it was sent.
  pub record IsServer (config : ProxyConfig A) (server : Bytes → Reader) : Type 0 where
    pub sent : Socket → Bytes
    pub socket : Socket
    pub is_connected :
        (connect config.addr >>= set_read_timeout >>= set_write_timeout) ≡ some socket
    pub is_new : sent socket ≡ []
    pub takes :
        (bytes : Bytes) (s : Socket)
        → (t : Socket) × (write_all bytes s ≡ some t) × (sent t ≡ sent s ++ bytes)
    pub answers : (s : Socket) → reader_of s ≡ server (sent s)

  header_line_lem :
      (header value : Text)
      → header_line tcp header value ≡ as_bytes (header_text (header, value)) ++ 0x0d ∷ 0x0a ∷ []
  unfolding text as_bytes
  header_line_lem header value =
      ap (λ s. as_bytes (s ++ text "\r\n")) (append_assoc header (text ": ") value)
      ∙ as_bytes-append (header_text (header, value)) (text "\r\n")

  module _ {config : ProxyConfig A} {server : Bytes → Reader} (h : IsServer config server) where
    written_line :
        (header value : Text) (s t : Socket)
        → h.sent t ≡ h.sent s ++ header_line tcp header value
        → (rest : Bytes)
        → h.sent t ++ rest
          ≡ h.sent s ++ (as_bytes (header_text (header, value)) ++ 0x0d ∷ 0x0a ∷ rest)
    written_line header value s t e rest =
        ap (λ all. all ++ rest) (e ∙ ap (◌++◌ (h.sent s)) (header_line_lem header value))
        ∙ append_assoc (h.sent s) (as_bytes (header_text (header, value)) ++ 0x0d ∷ 0x0a ∷ []) rest
        ∙ ap (◌++◌ (h.sent s))
            (append_assoc (as_bytes (header_text (header, value))) (0x0d ∷ 0x0a ∷ []) rest)

    write_headers-forwarded :
        (replace_host : Option Text) (headers : List (Text × Text)) (s : Socket)
        → (t : Socket) × (write_headers tcp replace_host headers s ≡ some t)
          × (h.sent t ≡ h.sent s ++ print_lines (map header_text (forwarded replace_host headers)))
    unfolding write_headers
    write_headers-forwarded replace_host [] s = (s, refl, sym (append-nil (h.sent s)))
    write_headers-forwarded replace_host ((header, value) ∷ headers) s =
        elim (Bool-cases (text_eq header (text "Connection"))) [
          | inl left_out ↦ rw left_out (write_headers-forwarded replace_host headers s)
          | inr sent ↦ rw sent (
              let v = sent_value tcp replace_host (header, value) in
              let (t, took, grew) = h.takes (header_line tcp header v) s in
              let (u, wrote, all) = write_headers-forwarded replace_host headers t in
              (
                u,
                rw took wrote,
                all
                    ∙ written_line header v s t grew
                        (print_lines (map header_text (forwarded replace_host headers))),
              ))
        ]

    -- What `proxy` writes on the connection.
    abbrev pub sent_request : Request → Bytes → Bytes
    sent_request request body =
        print_head
          (request_line request ∷ map header_text (forwarded config.replace_host request.headers)
            ++ header_text close ∷ [])
          body

    write_request-sent_request :
        (request : Request) (body : Reader)
        → body.fails ≡ false
        → (t : Socket) × (write_request tcp request config.replace_host body h.socket ≡ some t)
          × (h.sent t ≡ sent_request request body.content)
    unfolding write_request
    write_request-sent_request request body sound =
        let line = as_bytes (request.method ++ text " " ++ request.url ++ text " HTTP/1.1\r\n") in
        let headers = map header_text (forwarded config.replace_host request.headers) in
        let (a, took, first) = h.takes line h.socket in
        let (b, wrote, second) = write_headers-forwarded config.replace_host request.headers a in
        let (c, took_close, third) = h.takes (as_bytes (text "Connection: close\r\n\r\n")) b in
        let (d, took_body, last) = h.takes body.content c in
        (
          d,
          rw took (rw wrote (rw took_close (rw took_body (rw sound refl)))),
          last
              ∙ ap (λ s. s ++ body.content)
                  (third
                    ∙ ap (λ s. s ++ as_bytes (text "Connection: close\r\n\r\n"))
                        (second
                          ∙ ap (λ s. s ++ print_lines headers)
                              (first ∙ ap (λ s. s ++ line) h.is_new)))
              ∙ assembled request headers body.content,
        )

    -- With a server that can be connected to, takes all that it is sent, and answers to that, and a
    -- request whose body is still there and can be read: `proxy` gives what it reads from the
    -- server's answer to exactly this request: the method, the URL and the version, the headers in
    -- their order without those named `Connection`, and with the configured value for those named
    -- `Host`, a header `Connection: close`, an empty line, and the body.
    pub proxy-sent_request :
        (request : Request) (bodies : Bodies) (body : Reader)
        → bodies request.shared_data ≡ some body
        → body.fails ≡ false
        → (proxy tcp request config bodies).0
          ≡ read_response (server (sent_request request body.content))
    proxy-sent_request request bodies body there sound =
        let (written, sent, all) = write_request-sent_request request body sound in
        proxy-IsAnswered tcp request config bodies (server (sent_request request body.content))
          (record {
            socket = h.socket;
            written = written;
            body = body;
            is_connected = h.is_connected;
            is_there = there;
            is_sent = sent;
            is_answer = h.answers written ∙ ap server all;
          })
