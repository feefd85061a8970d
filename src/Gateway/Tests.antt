-- ===== src/Gateway/Tests.antt =====
-- An exchange that the theorems on src/proxy.rs are applied to.
use rouille.Common.{
  ℕ, ◌≡◌, refl, Bool, true, false, ◌&&◌, ltb, ltb→lt, is_empty, lacks, text_eq, none, some, List,
  [], ◌∷◌, ◌++◌, map, Bytes, Text, text, lacks-Lacks, arith, inl,
}
use rouille.Common.Utf8.{as_bytes, IsText}
use rouille.Common.Results.{ok}
use rouille.Http.Body.{Reader, cursor}
use rouille.Http.Request.{Request, Bodies, stored}
use rouille.Gateway.Lines.{parse_u16}
use rouille.Gateway.Lines.Heads.{IsLine, print_head}
use rouille.Gateway.Proxy.{Tcp, ProxyConfig, proxy, full_proxy, write_request, read_response}
use rouille.Gateway.Proxy.Heads.{status_line, header_text}
use rouille.Gateway.Proxy.Exchange.{IsAnswered, proxy-print_head, proxy_empty_value}
use rouille.Gateway.Proxy.Requests.{IsServer, proxy-sent_request}
use rouille.Gateway.Cgi.{Process, prefix_of, start_cgi}
use rouille.Gateway.Cgi.Output.{start_cgi-print_head}

-- A server that has one answer, and the bytes that are sent to it.
abbrev upstream : Reader → Tcp ℕ
upstream answer = record {
  Socket = Bytes;
  connect = λ addr. some [];
  set_read_timeout = some;
  set_write_timeout = some;
  write_all = λ bytes s. some (s ++ bytes);
  reader_of = λ s. answer;
}

abbrev to_port_80 : ProxyConfig ℕ
to_port_80 = record { addr = 80; replace_host = some (text "example.com") }

abbrev get_root : Request
get_root = record {
  method = text "GET";
  url = text "/";
  headers = (text "Host", text "localhost") ∷ [];
  https = false;
  shared_data = 0;
  remote_addr = none;
}

abbrev no_body : Bodies
no_body = stored 0 (cursor []) (λ place. none)

abbrev sent_bytes : Bytes
sent_bytes = text "GET / HTTP/1.1\r\nHost: example.com\r\nConnection: close\r\n\r\n"

abbrev one_header : List (Text × Text)
one_header = (text "a", text "b") ∷ []

abbrev answer_of : List Text → Reader
answer_of lines = record {
  content = print_head (status_line (text "HTTP/1.1") (text "200") (text "OK") ∷ lines) (b'x' ∷ []);
  fails = false;
}

answered : (answer : Reader) → IsAnswered (upstream answer) get_root to_port_80 no_body answer
unfolding text write_request as_bytes text_eq
answered answer = record {
  socket = [];
  written = sent_bytes;
  body = cursor [];
  is_connected = refl;
  is_there = refl;
  is_sent = refl;
  is_answer = refl;
}

abbrev is_ascii : Text → Bool
is_ascii [] = true
is_ascii (c ∷ s) = ltb c 0x80 && is_ascii s

is_ascii-IsText : (s : Text) → is_ascii s ≡ true → IsText s
is_ascii-IsText [] e = tt
is_ascii-IsText (c ∷ s) e =
    (inl (omega (arith, ltb→lt c 0x80 (ground arith))), is_ascii-IsText s (ground arith))

ascii-IsLine :
    (s : Text) → is_ascii s ≡ true → is_empty s ≡ false → lacks 0x0a (as_bytes s) ≡ true → IsLine s
ascii-IsLine s e f g = (is_ascii-IsText s e, f, lacks-Lacks 0x0a (as_bytes s) g)

first_IsLine : IsLine (status_line (text "HTTP/1.1") (text "200") (text "OK"))
unfolding text as_bytes
first_IsLine = ascii-IsLine (status_line (text "HTTP/1.1") (text "200") (text "OK")) refl refl refl

header_IsLine : IsLine (text "a: b")
unfolding text as_bytes
header_IsLine = ascii-IsLine (text "a: b") refl refl refl

empty_IsLine : IsLine (text "a:")
unfolding text as_bytes
empty_IsLine = ascii-IsLine (text "a:") refl refl refl

proxy-print_head_example :
    (proxy (upstream (answer_of (map header_text one_header))) get_root to_port_80 no_body).0
    ≡ some (
        ok (record {
          status_code = 200;
          headers = one_header;
          data_body = record { reader = cursor (b'x' ∷ []); data_length = none };
          upgrade = none;
        }))
unfolding text parse_u16
proxy-print_head_example =
    proxy-print_head (upstream (answer_of (map header_text one_header))) get_root to_port_80 no_body
      false (text "HTTP/1.1") (text "200") (text "OK") 200 one_header (b'x' ∷ [])
      (answered (answer_of (map header_text one_header))) (lacks-Lacks b' ' (text "HTTP/1.1") refl)
      (lacks-Lacks b' ' (text "200") refl) refl first_IsLine (header_IsLine, tt)
      (lacks-Lacks b':' (text "a") refl, tt)

abbrev broken_lines : List Text
broken_lines = map header_text one_header ++ (text "a" ++ b':' ∷ []) ∷ []

proxy_empty_value_example :
    ((proxy (upstream (answer_of broken_lines)) get_root to_port_80 no_body).0 ≡ none)
    × ((full_proxy (upstream (answer_of broken_lines)) get_root to_port_80 no_body).0 ≡ none)
unfolding text parse_u16
proxy_empty_value_example =
    proxy_empty_value (upstream (answer_of broken_lines)) get_root to_port_80 no_body false
      (text "HTTP/1.1") (text "200") (text "OK") 200 one_header (text "a") [] (b'x' ∷ [])
      (answered (answer_of broken_lines)) (lacks-Lacks b' ' (text "HTTP/1.1") refl)
      (lacks-Lacks b' ' (text "200") refl) refl first_IsLine (header_IsLine, (empty_IsLine, tt))
      (lacks-Lacks b':' (text "a") refl, tt) (lacks-Lacks b':' (text "a") refl)

-- A server that answers with what it was sent.
abbrev echo : Tcp ℕ
echo = record {
  Socket = Bytes;
  connect = λ addr. some [];
  set_read_timeout = some;
  set_write_timeout = some;
  write_all = λ bytes s. some (s ++ bytes);
  reader_of = cursor;
}

echo-IsServer : IsServer echo to_port_80 cursor
echo-IsServer = record {
  sent = λ s. s;
  socket = [];
  is_connected = refl;
  is_new = refl;
  takes = λ bytes s. (s ++ bytes, refl, refl);
  answers = λ s. refl;
}

abbrev kept_alive : Request
kept_alive = record get_root {
  headers =
      (text "Host", text "localhost")
      ∷ (text "Connection", text "keep-alive")
      ∷ (text "connection", text "keep-alive")
      ∷ [];
}

proxy-sent_request_example :
    (proxy echo kept_alive to_port_80 no_body).0
    ≡ read_response (
        cursor (
          text
            "GET / HTTP/1.1\r\nHost: example.com\r\nconnection: keep-alive\r\nConnection: close\r\n\r\n"))
unfolding text as_bytes text_eq
proxy-sent_request_example =
    proxy-sent_request echo echo-IsServer kept_alive no_body (cursor []) refl refl

-- A program that prints this, whatever its environment and its input are.
abbrev prints : Reader → Process
prints output = record {
  Command = List (Text × Text);
  Child = Bytes;
  env = λ name value vars. vars ++ (name, value) ∷ [];
  piped = λ vars. vars;
  spawn = λ vars. some [];
  write_stdin = λ bytes child. some (child ++ bytes);
  stdout_of = λ child. output;
}

abbrev local_root : Request
local_root = record get_root { remote_addr = some (text "127.0.0.1:80") }

abbrev output : Reader
output = record {
  content =
      print_head (header_text (text "Status", text "404 Not Found") ∷ map header_text one_header)
        (b'x' ∷ []);
  fails = false;
}

status_IsLine : IsLine (text "Status: 404 Not Found")
unfolding text as_bytes
status_IsLine = ascii-IsLine (text "Status: 404 Not Found") refl refl refl

start_cgi-print_head_example :
    (start_cgi (λ bytes. bytes) (prints output) [] local_root no_body).0
    ≡ some (
        ok (record {
          status_code = 404;
          headers = one_header;
          data_body = record { reader = cursor (b'x' ∷ []); data_length = none };
          upgrade = none;
        }))
unfolding text parse_u16 prefix_of text_eq as_bytes
start_cgi-print_head_example =
    start_cgi-print_head (λ bytes. bytes) (prints output) [] local_root no_body
      (text "127.0.0.1:80") [] [] [] false (text "404 Not Found") (text "404") 404 one_header
      (b'x' ∷ []) refl refl refl refl refl refl refl (status_IsLine, (header_IsLine, tt))
      (lacks-Lacks b':' (text "a") refl, refl, tt)
