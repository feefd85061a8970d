-- ===== src/Websocket/Handshake.antt =====
-- The handshake that begins a connection, src/websocket/mod.rs.
pub mod Started
use rouille.Common.{
  ℕ, ◌≡◌, ◌↔◌, refl, Bool, true, false, not, Option, none, some, List, [], ◌∷◌, ◌++◌, if◌then◌else◌,
  any, retain, is_empty, map, Bytes, Text, text, text_eq, to_ascii_lowercase, contains, split, trim,
  arith,
}
use rouille.Common.Utf8.{as_bytes}
use rouille.Http.Request.{Request, header}
use rouille.Http.Response.{Response, text as text_response}

pub data WebsocketError : Type 0 where
  invalid_websocket_request : WebsocketError
  wrong_subprotocol : WebsocketError

-- `Display`
unfoldable pub describe : WebsocketError → Text
describe invalid_websocket_request = text "the request does not match a websocket request"
describe wrong_subprotocol =
    text "the subprotocol passed to the function was not requested by the client"

pub data StartResult : Type 0 where
  ok : Response → StartResult
  err : WebsocketError → StartResult

abbrev protocols_of : Option Text → List Text
protocols_of none = []
protocols_of (some h) = retain (λ s. not (is_empty s)) (map trim (split b',' h))

unfoldable pub requested_protocols : Request → List Text
requested_protocols request = protocols_of (header request (text "Sec-WebSocket-Protocol"))

-- `Some(h) if h.to_ascii_lowercase().contains(word)`
abbrev pub mentions : Text → Option Text → Bool
mentions word none = false
mentions word (some h) = contains word (to_ascii_lowercase h)

abbrev pub is_version_13 : Option Text → Bool
is_version_13 none = false
is_version_13 (some h) = text_eq h (text "13")

abbrev pub is_requested : Request → Option Text → Bool
is_requested request none = true
is_requested request (some sp) = any (λ p. text_eq p sp) (requested_protocols request)

abbrev pub protocol_header : Option Text → List (Text × Text)
protocol_header none = []
protocol_header (some sp) = (text "Sec-Websocket-Protocol", sp) ∷ []

-- The digest of SHA-1 and `BASE64_STANDARD.encode`
module _ (sha1 : Bytes → Bytes) (base64_encode : Bytes → Text) where
  unfoldable pub convert_key : Text → Text
  convert_key input =
      base64_encode (sha1 (as_bytes input ++ text "258EAFA5-E914-47DA-95CA-C5AB0DC85B11"))

  -- The response, with the sender `tx` to which the connection will be handed.
  unfoldable pub switching : Text → Option Text → ℕ → Response
  unfolding convert_key text_response
  switching in_key subprotocol tx =
      let response = text_response [] in
      record response {
        status_code = 101;
        headers =
            ((response.headers ++ (text "Upgrade", text "websocket") ∷ [])
              ++ protocol_header subprotocol)
            ++ (text "Sec-Websocket-Accept", convert_key in_key) ∷ [];
        upgrade = some tx;
      }

  abbrev with_key : Option Text → Option Text → ℕ → StartResult
  with_key none subprotocol tx = err invalid_websocket_request
  with_key (some in_key) subprotocol tx = ok (switching in_key subprotocol tx)

  unfoldable pub start : Request → Option Text → ℕ → StartResult
  start request subprotocol tx =
      if not (text_eq request.method (text "GET"))
      then err invalid_websocket_request
      else if not (mentions (text "upgrade") (header request (text "Connection")))
      then err invalid_websocket_request
      else if not (mentions (text "websocket") (header request (text "Upgrade")))
      then err invalid_websocket_request
      else if not (is_version_13 (header request (text "Sec-WebSocket-Version")))
      then err invalid_websocket_request
      else if not (is_requested request subprotocol)
      then err wrong_subprotocol
      else with_key (header request (text "Sec-WebSocket-Key")) subprotocol tx

  -- A request that passes all tests of `start`, and the response to it.
  pub record PassesGuards (request : Request) (subprotocol : Option Text) (tx : ℕ)
      (response : Response) : Type 0 where
    pub in_key : Text
    pub is_get : text_eq request.method (text "GET") ≡ true
    pub is_upgrade : mentions (text "upgrade") (header request (text "Connection")) ≡ true
    pub is_websocket : mentions (text "websocket") (header request (text "Upgrade")) ≡ true
    pub is_13 : is_version_13 (header request (text "Sec-WebSocket-Version")) ≡ true
    pub has_protocol : is_requested request subprotocol ≡ true
    pub has_key : header request (text "Sec-WebSocket-Key") ≡ some in_key
    pub response_is : response ≡ switching in_key subprotocol tx

  start-ok :
      (request : Request) (subprotocol : Option Text) (tx : ℕ) (response : Response)
      (key : Option Text)
      → header request (text "Sec-WebSocket-Key") ≡ key
      → start request subprotocol tx ≡ ok response
      → PassesGuards request subprotocol tx response
  unfolding start
  start-ok request subprotocol tx response none k e = absurd (ground arith)
  start-ok request subprotocol tx response (some in_key) k e = record {
    in_key = in_key;
    is_get = ground arith;
    is_upgrade = ground arith;
    is_websocket = ground arith;
    is_13 = ground arith;
    has_protocol = ground arith;
    has_key = k;
    response_is = ground arith;
  }

  ok-start :
      (request : Request) (subprotocol : Option Text) (tx : ℕ) (response : Response)
      → PassesGuards request subprotocol tx response
      → start request subprotocol tx ≡ ok response
  unfolding start
  ok-start request subprotocol tx response s = ground (
    arith, s.is_get, s.is_upgrade, s.is_websocket, s.is_13, s.has_protocol, s.has_key,
    s.response_is,
  )

  pub start-PassesGuards :
      (request : Request) (subprotocol : Option Text) (tx : ℕ) (response : Response)
      → (start request subprotocol tx ≡ ok response) ↔ PassesGuards request subprotocol tx response
  start-PassesGuards request subprotocol tx response = (
    λ e. start-ok request subprotocol tx response _ refl e,
    λ s. ok-start request subprotocol tx response s,
  )
