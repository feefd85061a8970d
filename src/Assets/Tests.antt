-- ===== src/Assets/Tests.antt =====
-- A file system that the theorem on src/assets.rs is applied to.
use rouille.Common.{
  ◌≡◌, ◌⊎◌, true, false, none, some, [], ◌∷◌, ◌++◌, Bytes, Text, text, starts_with,
}
use rouille.Http.Body.{cursor}
use rouille.Http.Request.{Request}
use rouille.Http.Response.{empty_404}
use rouille.Assets.{FileSystem, match_assets, match_assets_within, IsServed}

-- Paths are texts; each of them is a file with the same content.
abbrev texts : FileSystem
texts = record {
  PathBuf = Text;
  push = λ path component. path ++ b'/' ∷ component;
  canonicalize = λ path. some path;
  starts_with = λ path root. starts_with root path;
  is_file = λ path. true;
  extension = λ path. some (text "txt");
  open_file = λ path. some (cursor (1 ∷ []), some 1);
  modified_seconds = λ path. some 1700000000;
  now_nanosecond = 0;
}

abbrev as_it_is : Bytes → Text
as_it_is bytes = bytes

abbrev request : Request
request = record {
  method = text "GET";
  url = text "/a.txt";
  headers = [];
  https = false;
  shared_data = 0;
  remote_addr = none;
}

match_assets_within_example :
    (match_assets texts as_it_is request (text "public") ≡ empty_404)
    ⊎ IsServed texts as_it_is request
        (text "public")
        (match_assets texts as_it_is request (text "public"))
match_assets_within_example = match_assets_within texts as_it_is request (text "public")
