-- ===== src/Server/Process.antt =====
-- `Server::process` of src/lib.rs: what the closure does that is executed for a request.
pub mod Forwarding
use rouille.Common.{
  ℕ, Bool, true, false, Option, none, some, List, [], ◌∷◌, if◌then◌else◌, Bytes, Text, text,
  eq_ignore_ascii_case,
}
use rouille.Common.Utf8.{as_bytes}
use rouille.Http.Body.{Reader, into_reader_and_size}
use rouille.Http.Request.{Request, Bodies, stored}
use rouille.Http.Response.{Response, html, with_status_code}

-- What the accessors of a `tiny_http::Request` give.
pub record Incoming : Type 0 where
  pub url : Text
  pub method : Text
  pub headers : List (Text × Text)
  pub remote_addr : Option Text
  pub body : Reader

-- A call of the handler under `catch_unwind`.
pub data Handled : Type 0 where
  returned : Response → Handled
  panicked : Handled

-- What is used of `tiny_http::Response` and `tiny_http::Header`.
pub record TinyHttp : Type 1 where
  pub TinyResponse : Type 0
  pub Header : Type 0
  pub empty : ℕ → TinyResponse
  pub with_data : Reader → Option ℕ → TinyResponse → TinyResponse
  pub from_bytes : Bytes → Bytes → Option Header
  pub add_header : Header → TinyResponse → TinyResponse

-- The `Request` object. Its body is the one of a new place.
unfoldable pub request_of : Incoming → Request
request_of incoming = record {
  method = incoming.method;
  url = incoming.url;
  headers = incoming.headers;
  https = false;
  shared_data = 0;
  remote_addr = incoming.remote_addr;
}

abbrev pub bodies_of : Incoming → Bodies
bodies_of incoming = stored 0 incoming.body (λ place. none)

unfoldable pub internal_server_error : Response
unfolding html with_status_code
internal_server_error = with_status_code 500 (
    html
      (text "<h1>Internal Server Error</h1><p>An internal error has occurred on the server.</p>"))

abbrev pub response_of : Handled → Response
response_of (returned r) = r
response_of panicked = internal_server_error

-- What becomes of the connection.
pub data Answer (TinyResponse : Type 0) : Type 0 where
  respond : TinyResponse → Answer TinyResponse
  upgraded : ℕ → Text → TinyResponse → Answer TinyResponse

module _ (http : TinyHttp) where
  open http use {TinyResponse, empty, with_data, from_bytes, add_header}

  abbrev pub add_if_valid : Text → Text → TinyResponse → TinyResponse
  add_if_valid key value response = elim (from_bytes (as_bytes key) (as_bytes value)) [
    | some h ↦ add_header h response
    | none ↦ response
  ]

  -- The body of the loop over the headers; `upgrade_header` goes along.
  abbrev pub on_header : Text × Text → Text × TinyResponse → Text × TinyResponse
  on_header (key, value) (upgrade_header, response) =
      if eq_ignore_ascii_case key (text "Content-Length")
      then (upgrade_header, response)
      else if eq_ignore_ascii_case key (text "Upgrade")
      then (value, response)
      else (upgrade_header, add_if_valid key value response)

  unfoldable pub add_headers : List (Text × Text) → Text × TinyResponse → Text × TinyResponse
  add_headers [] out = out
  add_headers (h ∷ headers) out = add_headers headers (on_header h out)

  abbrev pub answer : Option ℕ → Text × TinyResponse → Answer TinyResponse
  answer none (upgrade_header, response) = respond response
  answer (some upgrade) (upgrade_header, response) = upgraded upgrade upgrade_header response

  -- Writing the response.
  unfoldable pub write_response : Response → Answer TinyResponse
  unfolding add_headers into_reader_and_size
  write_response rouille_response =
      let (res_data, res_len) = into_reader_and_size rouille_response.data_body in
      let response = with_data res_data res_len (empty rouille_response.status_code) in
      answer rouille_response.upgrade (add_headers rouille_response.headers ([], response))

  unfoldable pub process : (Request → Bodies → Handled) → Incoming → Answer TinyResponse
  unfolding request_of write_response internal_server_error
  process handler incoming =
      write_response (response_of (handler (request_of incoming) (bodies_of incoming)))
