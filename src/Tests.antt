-- ===== src/Tests.antt =====
-- The theorems at concrete inputs, and runs of the definitions.
mod Wire
mod Imap
mod State
mod MemServer
mod Server
mod User
mod Pattern
mod Auth
mod Search
mod Extension
mod Commands
mod Dispatch
