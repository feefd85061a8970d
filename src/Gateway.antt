-- ===== src/Gateway.antt =====
-- The reverse proxy and CGI, src/proxy.rs and src/cgi.rs, which read the head of a response by
-- lines.
pub mod Lines
pub mod Proxy
pub mod Cgi
mod Tests
