-- ===== src/Server/Process/Forwarding.antt =====
-- The headers that `Server::process` of src/lib.rs hands to tiny_http.
use rouille.Common.{
  ◌≡◌, ◌≢◌, refl, ap, sym, ◌∙◌, Bool, true, false, not, ◌&&◌, Bool-cases, inl, inr, none, some,
  List, [], ◌∷◌, if◌then◌else◌, Text, text, eq_ignore_ascii_case, eq_ignore_ascii_case_iff,
  to_ascii_lowercase, ascii_lower, Option-cases, retain, arith,
}
use rouille.Common.Utf8.{as_bytes}
use rouille.Http.Body.{into_reader_and_size}
use rouille.Http.Request.{Request, Bodies}
use rouille.Server.Process.{
  TinyHttp, add_if_valid, add_headers, answer, write_response, Handled, Incoming, request_of,
  bodies_of, response_of, process,
}

-- The headers that are not left to tiny_http.
abbrev is_forwarded : Text × Text → Bool
is_forwarded (key, value) =
    not (eq_ignore_ascii_case key (text "Content-Length"))
    && not (eq_ignore_ascii_case key (text "Upgrade"))

-- The value of the last `Upgrade` header, if there is one.
abbrev last_upgrade : Text → List (Text × Text) → Text
last_upgrade value [] = value
last_upgrade value ((k, v) ∷ headers) =
    last_upgrade (if eq_ignore_ascii_case k (text "Upgrade") then v else value) headers

not_both :
    (key : Text)
    → eq_ignore_ascii_case key (text "Content-Length") ≡ true
    → eq_ignore_ascii_case key (text "Upgrade") ≡ false
unfolding text to_ascii_lowercase ascii_lower
not_both key e = elim (Bool-cases (eq_ignore_ascii_case key (text "Upgrade"))) [
  | inl both ↦ absurd (
      differ (
        sym ((eq_ignore_ascii_case_iff key (text "Content-Length")).0 e)
        ∙ (eq_ignore_ascii_case_iff key (text "Upgrade")).0 both))
  | inr other ↦ other
]
  where
    differ : ◌≢◌ {A = Text} (text "content-length") (text "upgrade")
    differ e = ground arith

module _ (http : TinyHttp) where
  open http use {TinyResponse, Header, empty, with_data, from_bytes, add_header}

  -- The headers that tiny_http takes.
  abbrev pub valid : List (Text × Text) → List Header
  valid [] = []
  valid ((key, value) ∷ headers) =
      let rest = valid headers in
      elim (from_bytes (as_bytes key) (as_bytes value)) [ some h ↦ h ∷ rest | none ↦ rest ]

  abbrev add_all : List Header → TinyResponse → TinyResponse
  add_all [] response = response
  add_all (h ∷ hs) response = add_all hs (add_header h response)

  add_all-if_valid :
      (key value : Text) (headers : List (Text × Text)) (response : TinyResponse)
      → add_all (valid ((key, value) ∷ headers)) response
        ≡ add_all (valid headers) (add_if_valid http key value response)
  add_all-if_valid key value headers response =
      elim (Option-cases (from_bytes (as_bytes key) (as_bytes value))) [
        | inl none_there ↦ ground (arith, none_there)
        | inr (h, there) ↦ ground (arith, there)
      ]

  add_headers_lem :
      (headers : List (Text × Text)) (upgrade : Text) (response : TinyResponse)
      → add_headers http headers (upgrade, response)
        ≡ (last_upgrade upgrade headers, add_all (valid (retain is_forwarded headers)) response)
  unfolding add_headers
  add_headers_lem [] upgrade response = refl
  add_headers_lem ((key, value) ∷ headers) upgrade response =
      elim (Bool-cases (eq_ignore_ascii_case key (text "Content-Length"))) [
        | inl length_header ↦
            ground (arith, not_both key length_header, add_headers_lem headers upgrade response)
        | inr other ↦ elim (Bool-cases (eq_ignore_ascii_case key (text "Upgrade"))) [
          | inl upgrade_header ↦ ground (arith, add_headers_lem headers value response)
          | inr forwarded ↦ ground (
            arith,
            add_headers_lem headers upgrade (add_if_valid http key value response),
            add_all-if_valid key value (retain is_forwarded headers) response,
          )
        ]
      ]

  -- Whatever the handler does, a response that it returns, or the page of status 500 if it panics,
  -- becomes the answer: with its status and body, with those of its headers that tiny_http takes
  -- as a header and that are not Content-Length or Upgrade in whatever case, in their order, and,
  -- if the response has an upgrade, with the value of its last Upgrade header, which is empty if
  -- there is none.
  pub process_lem :
      (handler : Request → Bodies → Handled) (incoming : Incoming) (handled : Handled)
      → handler (request_of incoming) (bodies_of incoming) ≡ handled
      → process http handler incoming
        ≡ answer http (response_of handled).upgrade (
          last_upgrade [] (response_of handled).headers,
          add_all (valid (retain is_forwarded (response_of handled).headers)) (
              with_data
                (response_of handled).data_body.reader
                (response_of handled).data_body.data_length
                (empty (response_of handled).status_code)),
        )
  unfolding process write_response into_reader_and_size
  process_lem handler incoming handled e =
      ap (λ h. write_response http (response_of h)) e
      ∙ ap (answer http (response_of handled).upgrade)
          (add_headers_lem (response_of handled).headers [] _)
