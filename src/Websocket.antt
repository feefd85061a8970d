-- ===== src/Websocket.antt =====
-- Websocket connections, src/websocket/.
pub mod LowLevel
pub mod Frame
pub mod Connection
pub mod Handshake
mod Tests
