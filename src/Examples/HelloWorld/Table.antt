-- ===== src/Examples/HelloWorld/Table.antt =====
-- The handler of examples/hello-world.rs against the table of its routes, and what
-- `Server::process` makes of it.
use rouille.Common.{
  ◌≡◌, refl, ap, sym, ◌∙◌, ℕ, length, eq_ignore_ascii_case, if◌then◌else◌, Option, none, some, List,
  [], ◌∷◌, ◌++◌, ◌>>=◌, Bytes, Text, text, text_eq, split_once, strip_prefix, is_empty, arith,
}
use rouille.Common.Utf8.{as_bytes}
use rouille.Http.Body.{cursor, from_string, into_reader_and_size, empty as empty_body}
use rouille.Http.Request.{Request, Bodies}
use rouille.Http.Response.{
  html, with_status_code, redirect_302, text as text_response, empty_400, empty_404,
}
use rouille.Routing.{router, dispatch, request_url}
use rouille.Routing.OldStyle.{
  slash_ident, slash_typed_param, pat_end, bind_value, segment, check_pattern,
}
use rouille.Examples.Branches.{strip_prefix-text_eq}
use rouille.Examples.HelloWorld.{hello, routes, handler}
use rouille.Server.Process.{
  TinyHttp, Incoming, Handled, Answer, respond, add_headers, internal_server_error, returned,
  panicked, process, write_response, response_of, request_of, bodies_of,
}

strip_prefix-twice :
    {A : Type 0} (p q url : Text) (a : A)
    → elim (strip_prefix p url) [
      | none ↦ none
      | some rest ↦ elim (strip_prefix q rest) [
        | none ↦ none
        | some rest' ↦ if is_empty rest' then some a else none
      ]
    ]
      ≡ (if text_eq url (p ++ q) then some a else none)
unfolding strip_prefix text_eq
strip_prefix-twice [] q url a = strip_prefix-text_eq q url a
strip_prefix-twice (c ∷ p) q [] a = refl
strip_prefix-twice (c ∷ p) q (d ∷ url) a = ground (arith, strip_prefix-twice p q url a)

-- A response as it is sent.
pub record Page : Type 0 where
  pub status : ℕ
  pub headers : List (Text × Text)
  pub body : Text

abbrev plain_page : Text → Page
plain_page body = record {
  status = 200;
  headers = (text "Content-Type", text "text/plain; charset=utf-8") ∷ [];
  body = body;
}

module _ (http : TinyHttp) where
  open http use {TinyResponse, empty, with_data, from_bytes, add_header}

  abbrev with_header : Text × Text → TinyResponse → TinyResponse
  with_header (key, value) response = elim (from_bytes (as_bytes key) (as_bytes value)) [
    | some h ↦ add_header h response
    | none ↦ response
  ]

  abbrev with_headers : List (Text × Text) → TinyResponse → TinyResponse
  with_headers [] response = response
  with_headers (h ∷ headers) response = with_headers headers (with_header h response)

  -- The page with its body as UTF-8 and its length, and the headers that tiny_http takes.
  abbrev pub shown : Page → TinyResponse
  shown page = with_headers page.headers (
      with_data (cursor (as_bytes page.body)) (some (length (as_bytes page.body)))
        (empty page.status))

module _ {U32 : Type 0} (parse_u32 : Text → Option U32) (percent_decode_lossy : Bytes → Text) where
  -- The table of the routes, whatever stands in it: the home page, the text, what is there instead
  -- of a page that panics, the page for a number, the page for a name, and that for all else.
  module _ {A : Type 0} (home hello_world panicking number : A) (name : Text → A)
      (missing : A) where
    abbrev named : Option U32 → Text → A
    named (some n) id = number
    named none id = name id

    -- The part of the path behind its first character, and what follows the next `/`.
    abbrev of_parts : Text × Option Text → A
    of_parts (id, some more) = missing
    of_parts (id, none) =
        let decoded = percent_decode_lossy (as_bytes id) in named (parse_u32 decoded) decoded

    abbrev by_name : Option Text → A
    by_name none = missing
    by_name (some rest) = of_parts (split_once b'/' rest)

    abbrev of_path : Text → A
    of_path path =
        if text_eq path (text "/")
        then home
        else if text_eq path (text "/hello/world")
        then hello_world
        else if text_eq path (text "/panic")
        then panicking
        else by_name (strip_prefix (text "/") path)

    abbrev table : Request → A
    table request =
        if text_eq request.method (text "GET") then of_path (request_url request) else missing

  -- What the handler comes to.
  abbrev handled : Request → Handled
  handled =
      table (returned (redirect_302 (text "/hello/world")))
        (returned (text_response (text "hello world"))) panicked (returned empty_400)
        (λ id. returned (hello id)) (returned empty_404)

  -- What is sent to the client.
  abbrev pub pages : Request → Page
  pages =
      table
        (record { status = 302; headers = (text "Location", text "/hello/world") ∷ []; body = [] })
        (plain_page (text "hello world"))
        (record {
          status = 500;
          headers = (text "Content-Type", text "text/html; charset=utf-8") ∷ [];
          body =
              text
                "<h1>Internal Server Error</h1><p>An internal error has occurred on the server.</p>";
        })
        (record { status = 400; headers = []; body = [] }) (λ id. plain_page (text "hello, " ++ id))
        (record { status = 404; headers = []; body = [] })

  abbrev of_last : {P : Type 0} → (Text → Option P) → Text × Option Text → Option (List P)
  of_last parse (id, some more) = none
  of_last parse (id, none) = parse (percent_decode_lossy (as_bytes id)) >>= λ p. some (p ∷ [])

  -- The value of a last parameter.
  abbrev last_param : {P : Type 0} → (Text → Option P) → Option Text → Option (List P)
  last_param parse none = none
  last_param parse (some rest) = of_last parse (split_once b'/' rest)

  last-parts :
      {P : Type 0} (parse : Text → Option P) (parts : Text × Option Text)
      → bind_value
          (parse (percent_decode_lossy (as_bytes (pat_end parts).0)))
          (if is_empty (pat_end parts).1 then some [] else none)
        ≡ of_last parse parts
  last-parts parse (id, some more) = ground arith
  last-parts parse (id, none) = ground arith

  check_pattern-last :
      {P : Type 0} (parse : Text → Option P) (url : Text)
      → check_pattern parse percent_decode_lossy (slash_typed_param ∷ []) url
        ≡ last_param parse (strip_prefix (text "/") url)
  unfolding check_pattern segment text strip_prefix
  check_pattern-last parse [] = refl
  check_pattern-last parse (c ∷ url) = ground (arith, last-parts parse (split_once b'/' url))

  hello_world_path :
      (url : Text)
      → check_pattern {P = Text} some percent_decode_lossy
          (slash_ident (text "hello") ∷ slash_ident (text "world") ∷ [])
          url
        ≡ (if text_eq url (text "/hello/world") then some [] else none)
  unfolding check_pattern text
  hello_world_path url = strip_prefix-twice (text "/hello") (text "/world") url []

  panic_path :
      (url : Text)
      → check_pattern {P = Text} some percent_decode_lossy (slash_ident (text "panic") ∷ []) url
        ≡ (if text_eq url (text "/panic") then some [] else none)
  unfolding check_pattern text
  panic_path url = strip_prefix-text_eq (text "/panic") url []

  handler-table :
      (request : Request) (bodies : Bodies)
      → handler parse_u32 percent_decode_lossy request bodies ≡ handled request
  unfolding handler router dispatch routes check_pattern segment text
  handler-table request bodies = ground (
    arith,
    check_pattern-last parse_u32 (request_url request),
    check_pattern-last {P = Text} some (request_url request),
    hello_world_path (request_url request),
    panic_path (request_url request),
  )

  module _ (http : TinyHttp) where
    -- The table does not look at what stands in it.
    table-ap :
        {A B : Type 0} (f : A → B) (home hello_world panicking number : A) (name : Text → A)
        (missing : A) (request : Request)
        → f (table home hello_world panicking number name missing request)
          ≡ table
              (f home)
              (f hello_world)
              (f panicking)
              (f number)
              (λ id. f (name id))
              (f missing)
              request
    table-ap f home hello_world panicking number name missing request = ground arith

    abbrev written : Handled → Answer http.TinyResponse
    written h = write_response http (response_of h)

    abbrev sent : Page → Answer http.TinyResponse
    sent page = respond (shown http page)

    written-handled : (request : Request) → written (handled request) ≡ sent (pages request)
    unfolding write_response add_headers into_reader_and_size redirect_302 text_response empty_400
        empty_404 hello internal_server_error html with_status_code text eq_ignore_ascii_case
        as_bytes from_string empty_body
    written-handled request =
        table-ap written _ _ _ _ _ _ request ∙ sym (table-ap sent _ _ _ _ _ _ request)

    -- Whatever the request, `process` answers it without an upgrade and with the page that the
    -- table has for its method and path, headers and body written out: for GET /panic, where the
    -- handler panics, that is the page of status 500.
    pub process-table :
        (incoming : Incoming)
        → process http (handler parse_u32 percent_decode_lossy) incoming
          ≡ respond (shown http (pages (request_of incoming)))
    unfolding process
    process-table incoming =
        ap written (handler-table (request_of incoming) (bodies_of incoming))
        ∙ written-handled (request_of incoming)
