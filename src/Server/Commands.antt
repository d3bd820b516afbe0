-- ===== src/Server/Commands.antt =====
-- server/commands: the arguments of the commands.
pub mod Search
pub mod Fetch
pub mod Sets
