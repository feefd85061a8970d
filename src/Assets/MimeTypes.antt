-- ===== src/Assets/MimeTypes.antt =====
-- The mime types of file extensions, `extension_to_mime_impl` of src/assets.rs.
pub mod First
pub mod Second
pub mod Third
pub mod Last
use rouille.Common.{
  ◌≡◌, refl, Bool, true, false, not, ◌&&◌, Option, none, some, List, [], ◌∷◌, ◌++◌, String, Text,
  text, text_eq, if◌then◌else◌,
}
use First.{first_quarter}
use Second.{second_quarter}
use Third.{third_quarter}
use Last.{last_quarter}

-- The arms in their order.
unfoldable arms : List (String × String)
arms = first_quarter ++ second_quarter ++ third_quarter ++ last_quarter

unfoldable first_arm : List (String × String) → Text → Text
first_arm [] extension = text "application/octet-stream"
first_arm ((pattern_text, mime) ∷ rest) extension =
    if text_eq (text pattern_text) extension then text mime else first_arm rest extension

unfoldable pub extension_to_mime_impl : Option Text → Text
unfolding first_arm arms
extension_to_mime_impl none = text "application/octet-stream"
extension_to_mime_impl (some extension) = first_arm arms extension

unfoldable extension_to_mime : Text → Text
unfolding extension_to_mime_impl
extension_to_mime extension = extension_to_mime_impl (some extension)
