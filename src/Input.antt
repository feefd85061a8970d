-- ===== src/Input.antt =====
-- The parsers of requests, src/input/.
pub mod Priority
pub mod Cookies
pub mod BasicHttpAuth
pub mod Plain
pub mod Json
pub mod Multipart
pub mod Post
pub mod Tests
