-- ===== src/Web.antt =====
-- The web crate: the native sync protocol's server (`Sync`).
pub mod Sync
