-- ===== src/Websocket/Tests.antt =====
-- Frames and connections that the theorems on src/websocket/ are applied to.
use rouille.Common.{
  ◌↔◌, ◌≡◌, refl, Bool, true, false, ◌&&◌, Option, none, some, [], ◌∷◌, ◌++◌, ltb, length, Bytes,
  text as literal, get_elem?, bit_xor, ◌>>=◌, arith,
}
use rouille.Websocket.LowLevel.{Data, StateMachine, new, feed, next}
use rouille.Websocket.LowLevel.Unmask.{collect, collect_lem, mask_octet}
use rouille.Websocket.LowLevel.Decoder.{header_of}
use rouille.Websocket.LowLevel.Elements.{Fed, elements, elements_events, rounds, refuses}
use rouille.Websocket.LowLevel.Refinement.{AllBytes, IsReady, Follows, feed-Follows, feed_pieces}
use rouille.Websocket.Frame.{frame_pieces}
use rouille.Websocket.Handshake.{ok, start}
use rouille.Websocket.Handshake.Started.{IsStarted, start_iff}
use rouille.Http.Response.{Response}
use rouille.Http.Body.{from_string}
use rouille.Http.Request.{Request}
use rouille.Websocket.Frame.RoundTrip.{read_frame, read_frame-frame_pieces, joined}

-- "Hello", masked, in one frame, as in RFC 6455.
abbrev hello_start : Bytes
hello_start = 0x81 ∷ 0x85 ∷ 0x37 ∷ 0xfa ∷ 0x21 ∷ 0x3d ∷ 0x7f ∷ []

abbrev hello_end : Bytes
hello_end = 0x9f ∷ 0x4d ∷ 0x51 ∷ 0x58 ∷ []

abbrev are_bytes : Bytes → Bool
are_bytes [] = true
are_bytes (b ∷ bs) = ltb b 256 && are_bytes bs

are_bytes-AllBytes : (bs : Bytes) → are_bytes bs ≡ true → AllBytes bs
are_bytes-AllBytes [] e = tt
are_bytes-AllBytes (b ∷ bs) e = (ground arith, are_bytes-AllBytes bs (ground arith))

abbrev fed_or_empty : Option Fed → Fed
fed_or_empty none = record { elements = []; state = new }
fed_or_empty (some f) = f

abbrev fed_of : StateMachine → Bytes → Fed
fed_of s bytes = fed_or_empty (elements (rounds bytes) (feed s bytes))

abbrev first : Fed
first = fed_of new hello_start

abbrev second : Fed
second = fed_of first.state hello_end

abbrev whole : Fed
whole = fed_of new (hello_start ++ hello_end)

first_fed : elements (rounds hello_start) (feed new hello_start) ≡ some first
unfolding elements next
first_fed = refl

second_fed : elements (rounds hello_end) (feed first.state hello_end) ≡ some second
unfolding elements next
second_fed = refl

whole_fed :
    elements (rounds (hello_start ++ hello_end)) (feed new (hello_start ++ hello_end)) ≡ some whole
unfolding elements next
whole_fed = refl

first_accepted : refuses first.elements ≡ false
unfolding elements next refuses
first_accepted = refl

new-IsReady : IsReady new
unfolding header_of
new-IsReady = (refl, tt)

feed_pieces_example :
    (elements_events whole.elements ≡ (
      elements_events first.elements >>= λ es.
      elements_events second.elements >>= λ fs. some (es ++ fs)))
    × (refuses whole.elements ≡ refuses second.elements)
feed_pieces_example =
    feed_pieces new hello_start hello_end whole first second new-IsReady
      (are_bytes-AllBytes hello_start refl) (are_bytes-AllBytes hello_end refl) first_fed
      first_accepted second_fed whole_fed

feed-Follows_example :
    (f : Fed) × (elements (rounds hello_start) (feed new hello_start) ≡ some f)
    × Follows new hello_start f
feed-Follows_example =
    feed-Follows new hello_start new-IsReady (are_bytes-AllBytes hello_start refl)

-- The masked bytes of "Hello".
abbrev hello : Data
hello = record { source = 0x7f ∷ 0x9f ∷ 0x4d ∷ 0x51 ∷ 0x58 ∷ []; mask = 0x37fa213d; offset = 0 }

collect_lem_example :
    (out : Bytes) × (collect hello ≡ some out)
    × (length out ≡ 5)
    × (get_elem? out 4 ≡ some (bit_xor 0x58 (mask_octet 0x37fa213d 0)))
collect_lem_example = collect_lem hello 4 0x58 (omega arith) refl

hello_collected : collect hello ≡ some (literal "Hello")
unfolding collect literal
hello_collected = refl

hello_pieces :
    frame_pieces (literal "Hello") 0x1 ≡ some ((0x81 ∷ []) ∷ (5 ∷ []) ∷ literal "Hello" ∷ [])
unfolding frame_pieces literal
hello_pieces = refl

read_frame-frame_pieces_example :
    read_frame (joined ((0x81 ∷ []) ∷ (5 ∷ []) ∷ literal "Hello" ∷ []) ++ 0x8a ∷ [])
    ≡ some (record { fin = true; opcode = 0x1; payload = literal "Hello" }, 0x8a ∷ [])
read_frame-frame_pieces_example =
    read_frame-frame_pieces (literal "Hello") (0x8a ∷ []) 0x1
      ((0x81 ∷ []) ∷ (5 ∷ []) ∷ literal "Hello" ∷ []) hello_pieces

-- A request that asks for a connection with one of two subprotocols.
abbrev upgrade_request : Request
upgrade_request = record {
  method = literal "GET";
  url = literal "/";
  headers =
      (literal "Connection", literal "keep-alive, Upgrade")
      ∷ (literal "Upgrade", literal "WebSocket")
      ∷ (literal "Sec-WebSocket-Version", literal "13")
      ∷ (literal "Sec-WebSocket-Key", literal "x3JJHMbDL1EzLkh9GBhXDw==")
      ∷ (literal "Sec-WebSocket-Protocol", literal "chat, echo")
      ∷ [];
  https = false;
  shared_data = 0;
  remote_addr = none;
}

-- Stand-ins for the digest and the encoding that change no byte.
abbrev same_bytes : Bytes → Bytes
same_bytes bytes = bytes

-- The digest and the encoding leave the bytes as they are.
abbrev switched : Response
switched = record {
  status_code = 101;
  headers =
      (literal "Content-Type", literal "text/plain; charset=utf-8")
      ∷ (literal "Upgrade", literal "websocket")
      ∷ (literal "Sec-Websocket-Protocol", literal "echo")
      ∷ (
        literal "Sec-Websocket-Accept",
        literal "x3JJHMbDL1EzLkh9GBhXDw==258EAFA5-E914-47DA-95CA-C5AB0DC85B11",
      )
      ∷ [];
  data_body = from_string [];
  upgrade = some 0;
}

start_iff_example :
    (start same_bytes same_bytes upgrade_request (some (literal "echo")) 0 ≡ ok switched)
    ↔ IsStarted same_bytes same_bytes upgrade_request (some (literal "echo")) 0 switched
start_iff_example =
    start_iff same_bytes same_bytes upgrade_request (some (literal "echo")) 0 switched
