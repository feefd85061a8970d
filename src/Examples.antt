-- ===== src/Examples.antt =====
-- The applications of the folder examples that put the parts of the library together.
pub mod Branches
pub mod LoginSession
pub mod Echo
pub mod Database
pub mod HelloWorld
pub mod SimpleForm
mod Tests
