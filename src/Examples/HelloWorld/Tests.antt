-- ===== src/Examples/HelloWorld/Tests.antt =====
-- Requests to examples/hello-world.rs that the theorem on it is applied to.
use rouille.Common.{◌≡◌, ℕ, Option, none, [], ◌∷◌, Bytes, Text, text, text_eq, split_once}
use rouille.Common.Utf8.{as_bytes}
use rouille.Http.Body.{cursor}
use rouille.Server.Process.{Incoming, respond, process, request_of}
use rouille.Server.Tests.{written}
use rouille.Examples.HelloWorld.{handler}
use rouille.Examples.HelloWorld.Table.{process-table}

-- Nothing is a number.
abbrev no_number : Text → Option ℕ
no_number s = none

abbrev unchanged : Bytes → Text
unchanged bytes = bytes

abbrev get : Text → Incoming
get url = record {
  url = url;
  method = text "GET";
  headers = [];
  remote_addr = none;
  body = cursor [];
}

process-table_example :
    process written (handler no_number unchanged) (get (text "/panic?x"))
    ≡ respond (
      500,
      text "<h1>Internal Server Error</h1><p>An internal error has occurred on the server.</p>",
      (text "Content-Type", text "text/html; charset=utf-8") ∷ [],
    )
unfolding text text_eq split_once as_bytes request_of
process-table_example = process-table no_number unchanged written (get (text "/panic?x"))
