-- ===== src/Server.antt =====
-- The server of src/lib.rs: `Executor`, `Server` and what is done with a request.
pub mod Executor
pub mod Process
pub mod Polling
pub mod Start
pub mod Tests
