-- ===== src/Http/Request.antt =====
-- `Request` of src/lib.rs. The body is shared between a request and what `remove_prefix` makes of
-- it: `shared_data` is the place of the `Arc<Mutex<Option<…>>>` in the store of bodies.
pub mod Headers
pub mod Url
pub mod Query
pub mod SharedBody
use rouille.Common.{
  ℕ, ◌+◌, Bool, true, false, not, ◌&&◌, ◌||◌, Option, none, some, List, [], ◌∷◌, ◌++◌, ltb, leb,
  ◌==◌, if◌then◌else◌, ◌>>=◌, Bytes, Text, text, find, drop, length, text_eq, eq_ignore_ascii_case,
  starts_with, strip_prefix, split, split_once, replace_char, map,
}
use rouille.Common.Utf8.{as_bytes}
use rouille.Http.Body.{Reader, cursor}

pub record Request : Type 0 where
  pub method : Text
  pub url : Text
  pub headers : List (Text × Text)
  pub https : Bool
  pub shared_data : ℕ
  pub remote_addr : Option Text

-- The bodies that have not been taken yet.
abbrev pub Bodies : Type 0
Bodies = ℕ → Option Reader

abbrev pub taken : ℕ → Bodies → Bodies
taken place bodies i = if i == place then none else bodies i

abbrev pub stored : ℕ → Reader → Bodies → Bodies
stored place r bodies i = if i == place then some r else bodies i

abbrev fake : Bool → Text → Text → Text → List (Text × Text) → ℕ → Request
fake https from method url headers place = record {
  method = method;
  url = url;
  headers = headers;
  https = https;
  shared_data = place;
  remote_addr = some from;
}

-- The `fake_…` constructors, with the free place at which the new body is stored.
unfoldable fake_http_from :
    Text → Text → Text → List (Text × Text) → Bytes → ℕ → Bodies → Request × Bodies
fake_http_from from method url headers bytes place bodies =
    (fake false from method url headers place, stored place (cursor bytes) bodies)

unfoldable fake_https_from :
    Text → Text → Text → List (Text × Text) → Bytes → ℕ → Bodies → Request × Bodies
fake_https_from from method url headers bytes place bodies =
    (fake true from method url headers place, stored place (cursor bytes) bodies)

unfoldable fake_http : Text → Text → List (Text × Text) → Bytes → ℕ → Bodies → Request × Bodies
unfolding fake_http_from
fake_http = fake_http_from (text "127.0.0.1:12345")

unfoldable fake_https : Text → Text → List (Text × Text) → Bytes → ℕ → Bodies → Request × Bodies
unfolding fake_https_from
fake_https = fake_https_from (text "127.0.0.1:12345")

abbrev is_secure : Request → Bool
is_secure r = r.https

abbrev raw_url : Request → Text
raw_url r = r.url

-- `method` and `remote_addr`, which panics if there is no address.
abbrev request_method : Request → Text
request_method r = r.method

abbrev pub expect_remote_addr : Request → Option Text
expect_remote_addr r = r.remote_addr

-- `headers` and its iterator.
record HeadersIter : Type 0 where
  iter : List (Text × Text)

abbrev headers_iter : Request → HeadersIter
headers_iter r = record { iter = r.headers }

abbrev next_of : List (Text × Text) → Option (Text × Text) × HeadersIter
next_of [] = (none, record { iter = [] })
next_of (h ∷ hs) = (some h, record { iter = hs })

unfoldable next_header : HeadersIter → Option (Text × Text) × HeadersIter
next_header it = next_of it.iter

abbrev query_of : Text × Option Text → Text
query_of (before, none) = []
query_of (before, some after) = after

-- What follows the first `?`.
unfoldable pub raw_query_string : Request → Text
raw_query_string r = query_of (split_once b'?' r.url)

abbrev pub header_value : Option (Text × Text) → Option Text
header_value none = none
header_value (some kv) = some kv.1

unfoldable pub header : Request → Text → Option Text
header r key = header_value (find (λ kv. eq_ignore_ascii_case kv.0 key) r.headers)

unfoldable do_not_track : Request → Option Bool
unfolding header
do_not_track r = elim (header r (text "DNT")) [
  | none ↦ none
  | some v ↦
      if text_eq v (text "1") then some true else if text_eq v (text "0") then some false else none
]

-- `data`: the body, the first time.
unfoldable pub take_data : Request → Bodies → Option Reader × Bodies
take_data r bodies = (bodies r.shared_data, taken r.shared_data bodies)

-- The test of `get_param`: the pair begins with the name and `=`, or it is the name.
abbrev pub wanted_pair : Text → Text → Bool
wanted_pair param_name pair = starts_with (param_name ++ b'=' ∷ []) pair || text_eq pair param_name

-- `.nth(1).unwrap_or("")`
abbrev second_piece : List Text → Text
second_piece (p ∷ q ∷ ps) = q
second_piece _ = []

-- `percent_encoding::percent_decode(…).decode_utf8_lossy().into_owned()`
module _ (percent_decode_lossy : Bytes → Text) where
  unfoldable pub url : Request → Text
  url r = percent_decode_lossy (as_bytes (split_once b'?' r.url).0)

  -- `none` is the failed `assert!`.
  unfoldable pub remove_prefix : Request → Text → Option (Option Request)
  unfolding url
  remove_prefix r prefix =
      if not (starts_with prefix (url r))
      then some none
      else if starts_with prefix r.url
      then some (some (record r { url = drop (length prefix) r.url }))
      else none

  unfoldable pub get_param : Request → Text → Option Text
  unfolding raw_query_string
  get_param r param_name = elim (find (wanted_pair param_name) (split b'&' (raw_query_string r))) [
    | none ↦ none
    | some pair ↦
        some (
          percent_decode_lossy (as_bytes (replace_char b'+' b' ' (second_piece (split b'=' pair)))))
  ]
