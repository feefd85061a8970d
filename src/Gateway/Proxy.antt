-- ===== src/Gateway/Proxy.antt =====
-- The reverse proxy, src/proxy.rs. A result `none` is a panic.
pub mod Heads
pub mod Answers
pub mod Exchange
pub mod Requests
use rouille.Common.{
  ℕ, Bool, true, false, Option, none, some, List, [], ◌∷◌, ◌++◌, if◌then◌else◌, ◌>>=◌, Bytes, Text,
  text, text_eq, split, split_once,
}
use rouille.Common.Utf8.{as_bytes}
use rouille.Common.Results.{Result, ok, err, map_ok}
use rouille.Http.Body.{Reader, from_reader}
use rouille.Http.Request.{Request, Bodies, take_data}
use rouille.Http.Response.{Response, text as text_response, with_status_code}
use rouille.Gateway.Lines.{
  chain, read_headers, FirstLine, no_line, broken, line_and, first_line, slice_from_1, parse_u16,
}

pub data ProxyError : Type 0 where
  body_already_extracted io_error http_parse_error : ProxyError

-- `Display`
unfoldable describe_error : ProxyError → Text
describe_error body_already_extracted = text "the body of the request was already extracted"
describe_error io_error =
    text
      "could not read the body from the request, or could not connect to the remote server, or the connection to the remote server closed unexpectedly"
describe_error http_parse_error = text "the destination server didn't produce compliant HTTP"

pub record ProxyConfig (A : Type 0) : Type 0 where
  pub addr : A
  pub replace_host : Option Text

pub data FullProxyError : Type 0 where
  body_already_extracted_error : FullProxyError

-- `Display`
unfoldable describe_full_error : FullProxyError → Text
describe_full_error body_already_extracted_error =
    text "the body of the request was already extracted"

-- What is used of `TcpStream`; `none` is an I/O error.
pub record Tcp (A : Type 0) : Type 1 where
  pub Socket : Type 0
  pub connect : A → Option Socket
  pub set_read_timeout : Socket → Option Socket
  pub set_write_timeout : Socket → Option Socket
  pub write_all : Bytes → Socket → Option Socket
  pub reader_of : Socket → Reader

-- The second of the pieces that blanks set off.
abbrev pub up_to_blank : Option Text → Result Text ProxyError
up_to_blank none = err http_parse_error
up_to_blank (some rest) = ok (split_once b' ' rest).0

-- `status_str`, from the first line
unfoldable pub status_of : Text → Result Text ProxyError
status_of line = up_to_blank (split_once b' ' line).1

abbrev pub push_header :
    Text × Option Text → List (Text × Text) → Option (Result (List (Text × Text)) ProxyError)
push_header (header, none) headers = some (err http_parse_error)
push_header (header, some val) headers =
    slice_from_1 val >>= λ v. some (ok (headers ++ (header, v) ∷ []))

-- The body of `for header in lines`, for a line that is not empty.
unfoldable pub on_header :
    Text → List (Text × Text) → Option (Result (List (Text × Text)) ProxyError)
on_header line headers = push_header (split_once b':' line) headers

abbrev pub response_with : ℕ → Bool → List (Text × Text) × Bytes → Response
response_with status_code fails (headers, rest) = record {
  status_code = status_code;
  headers = headers;
  data_body = from_reader (record { content = rest; fails = fails });
  upgrade = none;
}

-- The headers behind the first line, and the response.
abbrev pub after_code : Bool → List Bytes → Option ℕ → Option (Result Response ProxyError)
after_code fails pieces none = some (err http_parse_error)
after_code fails pieces (some status_code) =
    chain (read_headers io_error on_header fails pieces [])
      (λ out. some (ok (response_with status_code fails out)))

abbrev pub after_status :
    Bool → List Bytes → Result Text ProxyError → Option (Result Response ProxyError)
after_status fails pieces (err e) = some (err e)
after_status fails pieces (ok status_str) = after_code fails pieces (parse_u16 status_str)

abbrev pub after_first_line : Bool → FirstLine → Option (Result Response ProxyError)
after_first_line fails no_line = some (err http_parse_error)
after_first_line fails broken = some (err io_error)
after_first_line fails (line_and line pieces) = after_status fails pieces (status_of line)

-- The response that is read from the socket.
unfoldable pub read_response : Reader → Option (Result Response ProxyError)
unfolding first_line status_of read_headers on_header parse_u16
read_response socket =
    after_first_line socket.fails (first_line socket.fails (split 0x0a socket.content))

abbrev pub full_result : Result Response ProxyError → Result Response FullProxyError
full_result (ok r) = ok r
full_result (err io_error) = ok (with_status_code 504 (text_response (text "Gateway Time-out")))
full_result (err http_parse_error) = ok (with_status_code 502 (text_response (text "Bad Gateway")))
full_result (err body_already_extracted) = err body_already_extracted_error

module _ {A : Type 0} (tcp : Tcp A) where
  open tcp use {Socket, connect, set_read_timeout, set_write_timeout, write_all, reader_of}

  -- `value`, for the header `Host` that of the configuration if there is one
  abbrev pub sent_value : Option Text → Text × Text → Text
  sent_value none (header, value) = value
  sent_value (some replace) (header, value) =
      if text_eq header (text "Host") then replace else value

  abbrev pub header_line : Text → Text → Bytes
  header_line header value = as_bytes (header ++ text ": " ++ value ++ text "\r\n")

  -- The loop over the headers of the request.
  unfoldable pub write_headers : Option Text → List (Text × Text) → Socket → Option Socket
  write_headers replace_host [] socket = some socket
  write_headers replace_host ((header, value) ∷ headers) socket =
      let next =
        if text_eq header (text "Connection")
        then some socket
        else write_all (header_line header (sent_value replace_host (header, value))) socket in
      next >>= write_headers replace_host headers

  -- `io::copy`
  abbrev copy : Reader → Socket → Option Socket
  copy data_reader socket =
      write_all data_reader.content socket >>= λ s. if data_reader.fails then none else some s

  unfoldable pub write_request : Request → Option Text → Reader → Socket → Option Socket
  unfolding write_headers
  write_request request replace_host data_reader socket =
      write_all (as_bytes (request.method ++ text " " ++ request.url ++ text " HTTP/1.1\r\n"))
        socket
      >>= write_headers replace_host request.headers
      >>= write_all (as_bytes (text "Connection: close\r\n\r\n"))
      >>= copy data_reader

  abbrev pub answered : Option Socket → Option (Result Response ProxyError)
  answered none = some (err io_error)
  answered (some socket) = read_response (reader_of socket)

  -- With the connection, if there is one, and the body, if it is still there.
  abbrev pub exchange :
      Request → ProxyConfig A → Option Socket → Option Reader → Option (Result Response ProxyError)
  exchange request config none body = some (err io_error)
  exchange request config (some socket) none = some (err body_already_extracted)
  exchange request config (some socket) (some data_reader) =
      answered (write_request request config.replace_host data_reader socket)

  -- The body is taken if there is a connection.
  abbrev pub bodies_after : Option Socket → Request → Bodies → Bodies
  bodies_after none request bodies = bodies
  bodies_after (some socket) request bodies = (take_data request bodies).1

  unfoldable pub proxy :
      Request → ProxyConfig A → Bodies → Option (Result Response ProxyError) × Bodies
  unfolding take_data write_request read_response
  proxy request config bodies =
      let connected = connect config.addr >>= set_read_timeout >>= set_write_timeout in
      (
        exchange request config connected (take_data request bodies).0,
        bodies_after connected request bodies,
      )

  unfoldable pub full_proxy :
      Request → ProxyConfig A → Bodies → Option (Result Response FullProxyError) × Bodies
  unfolding proxy
  full_proxy request config bodies =
      let (result, rest) = proxy request config bodies in
      (result >>= λ r. some (full_result r), rest)
