-- ===== src/GuestPersistence.antt =====
-- What the guest scans keep in the database: apps/api/src/guest-persistence.
pub mod ScanRow
pub mod ResultCommit
pub mod Committer
mod Tests
