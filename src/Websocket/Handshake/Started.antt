-- ===== src/Websocket/Handshake/Started.antt =====
-- Which requests `start` of src/websocket/mod.rs takes, and what it answers to them.
use rouille.Common.{
  ℕ, ◌≡◌, ◌↔◌, ◌⊎◌, inl, inr, refl, true, false, not, Option, none, some, List, [], ◌∷◌, ◌++◌, any,
  retain, is_empty, map, Bytes, Text, text, text_eq, text_eq_iff, text_eq_self, to_ascii_lowercase,
  contains, split, trim, arith, Bool-cases, sym,
}
use rouille.Common.Utf8.{as_bytes}
use rouille.Http.Body.{from_string}
use rouille.Http.Request.{Request, header}
use rouille.Http.Response.{Response, text as text_response}
use rouille.Websocket.Handshake.{
  ok, start, switching, mentions, is_version_13, is_requested, requested_protocols, protocol_header,
  convert_key, start-PassesGuards,
}

-- The header is there, and has the word in it in whatever case.
pub record Mentions (request : Request) (name word : Text) : Type 0 where
  pub value : Text
  pub is_there : header request name ≡ some value
  pub has_word : contains word (to_ascii_lowercase value) ≡ true

-- The subprotocol is one of these pieces, without the white space around it, and is not empty.
abbrev IsOffered : Text → List Text → Type 0
IsOffered sp [] = ⊥
IsOffered sp (piece ∷ pieces) = ((trim piece ≡ sp) × (is_empty sp ≡ false)) ⊎ IsOffered sp pieces

-- If the server wants a subprotocol, the client offers it between commas.
abbrev HasProtocol : Request → Option Text → Type 0
HasProtocol request none = Unit
HasProtocol request (some sp) =
    (offer : Text) × (header request (text "Sec-WebSocket-Protocol") ≡ some offer)
    × IsOffered sp (split b',' offer)

mentions-Mentions :
    (request : Request) (name word : Text) (value : Option Text)
    → header request name ≡ value
    → mentions word (header request name) ≡ true
    → Mentions request name word
mentions-Mentions request name word none e m = absurd (ground arith)
mentions-Mentions request name word (some value) e m = record {
  value = value;
  is_there = e;
  has_word = ground arith;
}

Mentions-mentions :
    (request : Request) (name word : Text)
    → Mentions request name word
    → mentions word (header request name) ≡ true
Mentions-mentions request name word m = ground (arith, m.is_there, m.has_word)

version_13 : (value : Option Text) → is_version_13 value ≡ true → value ≡ some (text "13")
version_13 none e = absurd (ground arith)
version_13 (some v) e = ground (arith, (text_eq_iff v (text "13")).0 e)

any-IsOffered :
    (sp : Text) (pieces : List Text)
    → any (λ p. text_eq p sp) (retain (λ s. not (is_empty s)) (map trim pieces)) ≡ true
    → IsOffered sp pieces
any-IsOffered sp [] e = absurd (ground arith)
any-IsOffered sp (piece ∷ pieces) e = elim (Bool-cases (is_empty (trim piece))) [
  | inl blank ↦ inr (any-IsOffered sp pieces (ground arith))
  | inr full ↦ elim (Bool-cases (text_eq (trim piece) sp)) [
    | inl same ↦ let eq = (text_eq_iff (trim piece) sp).0 same in inl (eq, rw (sym eq) full)
    | inr other ↦ inr (any-IsOffered sp pieces (ground arith))
  ]
]

IsOffered-any :
    (sp : Text) (pieces : List Text)
    → IsOffered sp pieces
    → any (λ p. text_eq p sp) (retain (λ s. not (is_empty s)) (map trim pieces)) ≡ true
IsOffered-any sp [] h = absurd h
IsOffered-any sp (piece ∷ pieces) (inl (same, full)) =
    ground (arith, same, (text_eq_iff (trim piece) sp).1 same)
IsOffered-any sp (piece ∷ pieces) (inr h) = ground (arith, IsOffered-any sp pieces h)

requested-HasProtocol :
    (request : Request) (subprotocol offer : Option Text)
    → header request (text "Sec-WebSocket-Protocol") ≡ offer
    → is_requested request subprotocol ≡ true
    → HasProtocol request subprotocol
unfolding requested_protocols
requested-HasProtocol request none offer o e = tt
requested-HasProtocol request (some sp) none o e = absurd (ground arith)
requested-HasProtocol request (some sp) (some offer) o e =
    (offer, o, any-IsOffered sp (split b',' offer) (ground arith))

HasProtocol-requested :
    (request : Request) (subprotocol : Option Text)
    → HasProtocol request subprotocol
    → is_requested request subprotocol ≡ true
unfolding requested_protocols
HasProtocol-requested request none h = refl
HasProtocol-requested request (some sp) (offer, o, h) =
    ground (arith, IsOffered-any sp (split b',' offer) h)

module _ (sha1 : Bytes → Bytes) (base64_encode : Bytes → Text) where
  -- The response of RFC 6455 to the key.
  pub record IsSwitching (in_key : Text) (subprotocol : Option Text) (tx : ℕ) (response : Response)
      : Type 0 where
    pub is_101 : response.status_code ≡ 101
    pub headers_are :
        response.headers
        ≡ ((text "Content-Type", text "text/plain; charset=utf-8")
            ∷ (text "Upgrade", text "websocket")
            ∷ protocol_header subprotocol)
          ++ (
            text "Sec-Websocket-Accept",
            base64_encode (sha1 (as_bytes in_key ++ text "258EAFA5-E914-47DA-95CA-C5AB0DC85B11")),
          )
            ∷ []
    pub no_body : response.data_body ≡ from_string []
    pub hands_over : response.upgrade ≡ some tx

  -- A request that may become a connection, and the response to it.
  pub record IsStarted (request : Request) (subprotocol : Option Text) (tx : ℕ)
      (response : Response) : Type 0 where
    pub in_key : Text
    pub is_get : request.method ≡ text "GET"
    pub is_upgrade : Mentions request (text "Connection") (text "upgrade")
    pub is_websocket : Mentions request (text "Upgrade") (text "websocket")
    pub is_13 : header request (text "Sec-WebSocket-Version") ≡ some (text "13")
    pub has_key : header request (text "Sec-WebSocket-Key") ≡ some in_key
    pub has_protocol : HasProtocol request subprotocol
    pub answers : IsSwitching in_key subprotocol tx response

  switching-IsSwitching :
      (in_key : Text) (subprotocol : Option Text) (tx : ℕ) (response : Response)
      → response ≡ switching sha1 base64_encode in_key subprotocol tx
      → IsSwitching in_key subprotocol tx response
  unfolding switching convert_key text_response
  switching-IsSwitching in_key subprotocol tx response e = record {
    is_101 = ground arith;
    headers_are = ground arith;
    no_body = ground arith;
    hands_over = ground arith;
  }

  IsSwitching-switching :
      (in_key : Text) (subprotocol : Option Text) (tx : ℕ) (response : Response)
      → IsSwitching in_key subprotocol tx response
      → response ≡ switching sha1 base64_encode in_key subprotocol tx
  unfolding switching convert_key text_response
  IsSwitching-switching in_key subprotocol tx response s = λ i. record {
    status_code = s.is_101 i;
    headers = s.headers_are i;
    data_body = s.no_body i;
    upgrade = s.hands_over i;
  }

  -- `start` succeeds exactly for a GET request whose header Connection mentions upgrade and whose
  -- header Upgrade mentions websocket, in whatever case, with the version 13, a key and the
  -- subprotocol, if there is one, among those offered. The response then has the status 101, no
  -- body, the headers that name the upgrade and the subprotocol, and the base64 of the SHA-1 of
  -- the key with the GUID of RFC 6455 behind it, and it hands the connection to the sender.
  pub start_iff :
      (request : Request) (subprotocol : Option Text) (tx : ℕ) (response : Response)
      → (start sha1 base64_encode request subprotocol tx ≡ ok response)
        ↔ IsStarted request subprotocol tx response
  start_iff request subprotocol tx response = (
    λ e.
        let p = (start-PassesGuards sha1 base64_encode request subprotocol tx response).0 e in
        record {
          in_key = p.in_key;
          is_get = (text_eq_iff request.method (text "GET")).0 p.is_get;
          is_upgrade =
              mentions-Mentions request (text "Connection") (text "upgrade") _ refl p.is_upgrade;
          is_websocket =
              mentions-Mentions request (text "Upgrade") (text "websocket") _ refl p.is_websocket;
          is_13 = version_13 _ p.is_13;
          has_key = p.has_key;
          has_protocol = requested-HasProtocol request subprotocol _ refl p.has_protocol;
          answers = switching-IsSwitching p.in_key subprotocol tx response p.response_is;
        },
    λ s. (start-PassesGuards sha1 base64_encode request subprotocol tx response).1 (record {
      in_key = s.in_key;
      is_get = (text_eq_iff request.method (text "GET")).1 s.is_get;
      is_upgrade = Mentions-mentions request (text "Connection") (text "upgrade") s.is_upgrade;
      is_websocket = Mentions-mentions request (text "Upgrade") (text "websocket") s.is_websocket;
      is_13 = rw s.is_13 (text_eq_self (text "13"));
      has_protocol = HasProtocol-requested request subprotocol s.has_protocol;
      has_key = s.has_key;
      response_is = IsSwitching-switching s.in_key subprotocol tx response s.answers;
    }),
  )
