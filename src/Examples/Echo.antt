-- ===== src/Examples/Echo.antt =====
-- examples/websocket.rs: a server that sends back each text that it receives.
pub mod Sending
pub mod Frames
mod Tests
use rouille.Common.{ℕ, zero, suc, Option, none, some, List, [], ◌∷◌, ◌++◌, ◌>>=◌, Bytes, Text, text}
use rouille.Common.Results.{Result, ok, err}
use rouille.Http.Request.{Request}
use rouille.Http.Response.{Response, html, empty_404}
use rouille.Logging.ErrorChain.{
  AnError, ErrJson, TryOr400, error, no_source, goes_on, returns, try_or_400,
}
use rouille.Routing.{router}
use rouille.Routing.OldStyle.{slash, slash_ident}
use rouille.Websocket.Connection.{
  Message, text as text_message, binary, Websocket, SendResult, sent, next_message, send_text,
}
use rouille.Websocket.Frame.{ReadWrite}
use rouille.Websocket.Handshake.{
  StartResult, WebsocketError, describe, ok as started, err as refused, start,
}
use rouille.Examples.Branches.{branch}

abbrev home_page : Text
home_page =
    text "<script type=\"text/javascript\">\n"
    ++ text "                    var socket = new WebSocket(\"ws://localhost:8000/ws\", "
    ++ text "\"echo\");\n"
    ++ text "                    function send(data) {{\n"
    ++ text "                        socket.send(data);\n"
    ++ text "                    }}\n"
    ++ text "                    socket.onmessage = function(event) {{\n"
    ++ text "                        document.getElementById('result').innerHTML += event"
    ++ text ".data + '<br />';\n"
    ++ text "                    }}\n"
    ++ text "                    </script>\n"
    ++ text "                    <p>This example sends back everything you send to the se"
    ++ text "rver.</p>\n"
    ++ text "                    <p><form onsubmit=\"send(document.getElementById('msg')."
    ++ text "value); return false;\">\n"
    ++ text "                    <input type=\"text\" id=\"msg\" />\n"
    ++ text "                    <button type=\"submit\">Send</button>\n"
    ++ text "                    </form></p>\n"
    ++ text "                    <p>Received: </p>\n"
    ++ text "                    <p id=\"result\"></p>"

abbrev as_result : StartResult → Result Response AnError
as_result (started response) = ok response
as_result (refused e) = err (error (describe e) no_source)

abbrev response_of : TryOr400 Response → Response
response_of (goes_on response) = response
response_of (returns response) = response

-- SHA-1, base64, serde_json and percent-decoding; `tx` is the end of the channel that the connection
-- will be sent to.
module _ (sha1 : Bytes → Bytes) (base64_encode : Bytes → Text) (to_string : ErrJson → Text)
    (percent_decode_lossy : Bytes → Text) where
  -- The block of `/ws`. It also spawns the thread that waits for the connection.
  unfoldable ws_route : Request → ℕ → Response
  unfolding start describe try_or_400
  ws_route request tx =
      response_of (
        try_or_400 to_string (as_result (start sha1 base64_encode request (some (text "echo")) tx)))

  unfoldable handler : Request → ℕ → Option Response
  unfolding router html empty_404 ws_route
  handler request tx =
      router request
        (branch percent_decode_lossy (text "GET") (slash ∷ []) (html home_page)
          ∷ branch percent_decode_lossy (text "GET") (slash_ident (text "ws") ∷ [])
              (ws_route request tx)
          ∷ [])
        empty_404

module _ (io : ReadWrite) where
  open io use {Stream}

  -- `.unwrap()`
  abbrev unwrap_sent : SendResult × Websocket Stream → Option (Websocket Stream)
  unwrap_sent (sent, ws) = some ws
  unwrap_sent (_, ws) = none

  -- The body of the loop. `none` is a panic.
  unfoldable pub echo : Message → Websocket Stream → Option (Websocket Stream)
  unfolding send_text
  echo (text_message txt) ws = send_text io txt ws >>= unwrap_sent
  echo (binary bytes) ws = some ws

  -- The thread, for so many messages, with so many turns of the loop of `next` for each of them;
  -- `none` also if there are too few of either.
  unfoldable pub websocket_handling_thread : ℕ → ℕ → Websocket Stream → Option (Websocket Stream)
  unfolding next_message echo
  websocket_handling_thread zero turns ws = none
  websocket_handling_thread (suc n) turns ws = elim (next_message io turns ws) [
    | none ↦ none
    | some (none, ws') ↦ some ws'
    | some (some message, ws') ↦ elim (echo message ws') [
      | none ↦ none
      | some ws'' ↦ websocket_handling_thread n turns ws''
    ]
  ]
