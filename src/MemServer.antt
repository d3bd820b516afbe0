-- ===== src/MemServer.antt =====
-- The package `server/memserver`: mailboxes held in memory.
pub mod Message
pub mod Mailbox
pub mod User
pub mod Pattern
pub mod Session
pub mod Search
