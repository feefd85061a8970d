-- ===== src/Assets.antt =====
-- Static files, src/assets.rs.
pub mod MimeTypes
mod Tests
use rouille.Common.{
  ℕ, ◌≡◌, refl, ◌⊎◌, inl, inr, Bool, true, false, Option, none, some, List, [], ◌∷◌, bit_xor,
  if◌then◌else◌, Text, Bytes, decimal, split, arith,
}
use rouille.Http.Body.{Reader}
use rouille.Http.Request.{Request, url}
use rouille.Http.Response.{Response, empty_404, from_file}
use rouille.Http.Response.Etag.{with_etag}
use rouille.Http.Response.Caching.{with_public_cache}
use rouille.Assets.MimeTypes.{extension_to_mime_impl}

-- What is used of `std::path`, `std::fs` and of the clock.
pub record FileSystem : Type 1 where
  pub PathBuf : Type 0
  pub push : PathBuf → Text → PathBuf
  pub canonicalize : PathBuf → Option PathBuf
  pub starts_with : PathBuf → PathBuf → Bool
  pub is_file : PathBuf → Bool
  pub extension : PathBuf → Option Text
  pub open_file : PathBuf → Option (Reader × Option ℕ)
  pub modified_seconds : PathBuf → Option ℕ
  pub now_nanosecond : ℕ

module _ (fs : FileSystem) (percent_decode_lossy : Bytes → Text) where
  unfoldable pub push_all : fs.PathBuf → List Text → fs.PathBuf
  push_all path [] = path
  push_all path (component ∷ components) = push_all (fs.push path component) components

  abbrev stamp : Option ℕ → ℕ
  stamp none = fs.now_nanosecond
  stamp (some seconds) = seconds

  abbrev etag_of : fs.PathBuf → Text
  etag_of file = decimal (bit_xor (stamp (fs.modified_seconds file)) 0xd3f40305c9f8e911)

  -- The response with the file.
  unfoldable pub serve : Request → fs.PathBuf → Reader × Option ℕ → Response
  serve request potential_file (file, metadata_len) = with_public_cache 3600 (
      with_etag request (etag_of potential_file)
        (from_file (extension_to_mime_impl (fs.extension potential_file)) file metadata_len))

  abbrev opened : Request → fs.PathBuf → Option (Reader × Option ℕ) → Response
  opened request potential_file none = empty_404
  opened request potential_file (some file) = serve request potential_file file

  abbrev located : Request → fs.PathBuf → Option fs.PathBuf → Response
  located request path none = empty_404
  located request path (some potential_file) =
      if fs.starts_with potential_file path
      then if fs.is_file potential_file
        then opened request potential_file (fs.open_file potential_file)
        else empty_404
      else empty_404

  abbrev inside : Request → Option fs.PathBuf → Response
  inside request none = empty_404
  inside request (some path) =
      located request path
        (fs.canonicalize (push_all path (split b'/' (url percent_decode_lossy request))))

  unfoldable pub match_assets : Request → fs.PathBuf → Response
  match_assets request path = inside request (fs.canonicalize path)

  -- The response serves a file that the URL names within the directory, by its canonical path.
  pub record IsServed (request : Request) (path : fs.PathBuf) (response : Response) : Type 0 where
    pub root : fs.PathBuf
    pub file : fs.PathBuf
    pub content : Reader × Option ℕ
    pub canonical_root : fs.canonicalize path ≡ some root
    pub canonical_file :
        fs.canonicalize (push_all root (split b'/' (url percent_decode_lossy request))) ≡ some file
    pub is_within : fs.starts_with file root ≡ true
    pub is_regular : fs.is_file file ≡ true
    pub is_content : fs.open_file file ≡ some content
    pub serves : response ≡ serve request file content

  abbrev candidate : Request → fs.PathBuf → Option fs.PathBuf
  candidate request root =
      fs.canonicalize (push_all root (split b'/' (url percent_decode_lossy request)))

  opened_lem :
      (request : Request) (path root file : fs.PathBuf) (content : Option (Reader × Option ℕ))
      → fs.canonicalize path ≡ some root
      → candidate request root ≡ some file
      → fs.starts_with file root ≡ true
      → fs.is_file file ≡ true
      → fs.open_file file ≡ content
      → (opened request file content ≡ empty_404)
        ⊎ IsServed request path (opened request file content)
  opened_lem request path root file none e c w f o = inl refl
  opened_lem request path root file (some content) e c w f o = inr (record {
    root = root;
    file = file;
    content = content;
    canonical_root = e;
    canonical_file = c;
    is_within = w;
    is_regular = f;
    is_content = o;
    serves = refl;
  })

  located_lem :
      (request : Request) (path root file : fs.PathBuf) (within regular : Bool)
      → fs.canonicalize path ≡ some root
      → candidate request root ≡ some file
      → fs.starts_with file root ≡ within
      → fs.is_file file ≡ regular
      → (located request root (some file) ≡ empty_404)
        ⊎ IsServed request path (located request root (some file))
  located_lem request path root file false regular e c w f = inl (ground arith)
  located_lem request path root file true false e c w f = inl (ground arith)
  located_lem request path root file true true e c w f =
      rw w (rw f (opened_lem request path root file (fs.open_file file) e c w f refl))

  candidate_lem :
      (request : Request) (path root : fs.PathBuf) (file : Option fs.PathBuf)
      → fs.canonicalize path ≡ some root
      → candidate request root ≡ file
      → (located request root file ≡ empty_404) ⊎ IsServed request path (located request root file)
  candidate_lem request path root none e c = inl refl
  candidate_lem request path root (some file) e c =
      located_lem request path root file (fs.starts_with file root) (fs.is_file file) e c refl refl

  inside_lem :
      (request : Request) (path : fs.PathBuf) (root : Option fs.PathBuf)
      → fs.canonicalize path ≡ root
      → (inside request root ≡ empty_404) ⊎ IsServed request path (inside request root)
  inside_lem request path none e = inl refl
  inside_lem request path (some root) e = candidate_lem request path root _ e refl

  -- Whatever the URL, the response is a 404 or it serves a regular file whose canonical path lies
  -- under the canonical path of the directory.
  pub match_assets_within :
      (request : Request) (path : fs.PathBuf)
      → (match_assets request path ≡ empty_404) ⊎ IsServed request path (match_assets request path)
  unfolding match_assets
  match_assets_within request path = inside_lem request path (fs.canonicalize path) refl
