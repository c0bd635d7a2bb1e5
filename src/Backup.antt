-- ===== src/Backup.antt =====
-- The backup crate: which snapshots a retention policy drops (`Retention`).
pub mod Retention
