-- ===== src/Store.antt =====
-- The store crate: file names (`Paths`), directories (`Files`), the task vault (`Vault`),
-- trashed tasks and projects (`Trash`), the files of projects
-- (`Projects`).
pub mod Paths
pub mod Files
pub mod Vault
pub mod Trash
pub mod Projects
