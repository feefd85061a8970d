-- ===== src/Http.antt =====
-- src/lib.rs and src/response.rs: bodies, requests and responses.
pub mod Body
pub mod Request
pub mod Response
mod Tests
