-- ===== src/Server.antt =====
-- The server's parts that do not depend on a backend.
pub mod Tracker
pub mod Dispatch
pub mod Commands
