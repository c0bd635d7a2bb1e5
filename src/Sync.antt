-- ===== src/Sync.antt =====
-- The sync crate: planning (`Reconcile`), the persisted merge base (`Snapshot`), and the series that are
-- the units of the event sync (`Series`), the client of the server (`Remote`), and a pass over the tasks (`Driver`).
pub mod Reconcile
pub mod Snapshot
pub mod Series
pub mod Remote
pub mod Driver
