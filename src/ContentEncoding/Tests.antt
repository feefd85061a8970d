-- ===== src/ContentEncoding/Tests.antt =====
-- A response that the theorem on src/content_encoding.rs is applied to.
use rouille.Common.{
  ℕ, ◌≡◌, refl, leb, false, Option, none, some, [], ◌∷◌, Text, text, eq_ignore_ascii_case,
  starts_with, to_ascii_lowercase, split, trim,
}
use rouille.Http.Body.{Reader, from_data}
use rouille.Http.Request.{Request, header}
use rouille.Http.Response.{Response}
use rouille.Input.Priority.{Floats, priority_header_preferred, parse_priority_header, accepts}
use rouille.ContentEncoding.{Encoders, apply}
use rouille.ContentEncoding.Once.{apply-apply}

-- One digit for a number.
abbrev digit : Text → Option ℕ
digit (c ∷ []) = some c
digit _ = none

abbrev digits : Floats
digits = record { F32 = ℕ; from_str = digit; one = b'1'; neg_infinity = 0; le = leb }

-- Encodings that keep the bytes behind a mark.
abbrev marking : Encoders
marking = record {
  to_lowercase = to_ascii_lowercase;
  deflate_bytes_gzip = λ bytes. 31 ∷ bytes;
  compressor_reader = λ r. record r { content = 27 ∷ r.content };
}

abbrev request : Request
request = record {
  method = text "GET";
  url = text "/";
  headers = (text "Accept-Encoding", text "gzip") ∷ [];
  https = false;
  shared_data = 0;
  remote_addr = none;
}

abbrev plain : Response
plain = record {
  status_code = 200;
  headers = (text "Content-Type", text "text/plain") ∷ [];
  data_body = from_data (1 ∷ 2 ∷ []);
  upgrade = none;
}

abbrev zipped : Response
zipped = record {
  status_code = 200;
  headers = (text "Content-Type", text "text/plain") ∷ (text "Content-Encoding", text "gzip") ∷ [];
  data_body = from_data (31 ∷ 1 ∷ 2 ∷ []);
  upgrade = none;
}

apply-plain : apply marking digits request plain ≡ some zipped
unfolding apply text eq_ignore_ascii_case starts_with priority_header_preferred
    parse_priority_header split header accepts trim rouille.ContentEncoding.gzip
    rouille.Http.Body.into_reader_and_size from_data
apply-plain = refl

apply-apply_example : apply marking digits request zipped ≡ some zipped
apply-apply_example = apply-apply marking digits request plain zipped apply-plain
