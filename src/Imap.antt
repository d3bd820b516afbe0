-- ===== src/Imap.antt =====
-- The root package `imap`: the types that the client and the server share.
pub mod ConnState
pub mod NumSet
pub mod CapSet
pub mod Search
pub mod Fetch
