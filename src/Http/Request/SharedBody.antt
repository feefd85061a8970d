-- ===== src/Http/Request/SharedBody.antt =====
-- The body of a request is given out once (`data` and `remove_prefix` of src/lib.rs).
use rouille.Common.{◌≡◌, none, some, Bytes, Text, arith}
use rouille.Http.Request.{Request, Bodies, take_data, remove_prefix}

remove_prefix-shared_data :
    (decode : Bytes → Text) (r short : Request) (prefix : Text)
    → remove_prefix decode r prefix ≡ some (some short)
    → short.shared_data ≡ r.shared_data
unfolding remove_prefix
remove_prefix-shared_data decode r short prefix e = ground arith

-- After the body has been taken it is not given out again, neither by the request nor by what
-- `remove_prefix` has made of it; the two give the same body.
pub take_data-remove_prefix :
    (decode : Bytes → Text) (r short : Request) (prefix : Text) (bodies : Bodies)
    → remove_prefix decode r prefix ≡ some (some short)
    → ((take_data r (take_data short bodies).1).0 ≡ none)
      × ((take_data short (take_data r bodies).1).0 ≡ none)
      × ((take_data short bodies).0 ≡ (take_data r bodies).0)
unfolding take_data
take_data-remove_prefix decode r short prefix bodies e =
    let same = remove_prefix-shared_data decode r short prefix e in
    (ground arith, ground arith, ground arith)
