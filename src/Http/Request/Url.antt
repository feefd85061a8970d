-- ===== src/Http/Request/Url.antt =====
-- Prefixes of URLs (`url` and `remove_prefix` of src/lib.rs).
use rouille.Common.{
  ◌≡◌, true, some, ◌++◌, ◌∷◌, Bytes, Text, arith, starts_with, strip_prefix, strip_prefix-eq_some,
  strip_prefix-append, drop-append, Lacks, split_once_at, Option-cases, Bool-cases, inl, inr,
}
use rouille.Common.Utf8.{as_bytes}
use rouille.Http.Request.{Request, url, remove_prefix, raw_query_string}

starts_with-eq_true : (p s : Text) → starts_with p s ≡ true → (rest : Text) × (s ≡ p ++ rest)
unfolding starts_with
starts_with-eq_true p s e = elim (Option-cases (strip_prefix p s)) [
  | inl missing ↦ absurd (ground arith)
  | inr (rest, found) ↦ (rest, strip_prefix-eq_some p s rest found)
]

-- If `remove_prefix` gives a request, the raw URL was the prefix in front of the new raw URL, and
-- the request is otherwise the same.
remove_prefix-eq_some :
    (decode : Bytes → Text) (r short : Request) (prefix : Text)
    → remove_prefix decode r prefix ≡ some (some short)
    → (r.url ≡ prefix ++ short.url) × (short ≡ record r { url = short.url })
unfolding remove_prefix
remove_prefix-eq_some decode r short prefix e = elim (Bool-cases (starts_with prefix r.url)) [
  | inr other ↦ absurd (ground arith)
  | inl same ↦
      let (rest, whole) = starts_with-eq_true prefix r.url same in
      let cut = drop-append prefix rest in (ground arith, ground arith)
]

-- Where both the raw URL and the decoded URL begin with the prefix, `remove_prefix` does not panic:
-- it gives the request whose raw URL is the rest, query included, and which is otherwise the same.
remove_prefix-append :
    (decode : Bytes → Text) (r : Request) (prefix rest decoded : Text)
    → r.url ≡ prefix ++ rest
    → url decode r ≡ prefix ++ decoded
    → remove_prefix decode r prefix ≡ some (some (record r { url = rest }))
unfolding remove_prefix starts_with
remove_prefix-append decode r prefix rest decoded raw e = ground (
  arith,
  strip_prefix-append prefix rest,
  strip_prefix-append prefix decoded,
  drop-append prefix rest,
)

-- In a raw URL with a `?`, `url` is the decoding of what stands in front of the first one, and
-- `raw_query_string` is what stands behind it.
url-raw_query_string :
    (decode : Bytes → Text) (r : Request) (path query : Text)
    → Lacks b'?' path
    → r.url ≡ path ++ b'?' ∷ query
    → (url decode r ≡ decode (as_bytes path)) × (raw_query_string r ≡ query)
unfolding url raw_query_string
url-raw_query_string decode r path query h e =
    let cut = split_once_at b'?' path query h in (ground arith, ground arith)
