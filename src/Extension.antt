-- ===== src/Extension.antt =====
-- The package `extension`.
pub mod Registry
