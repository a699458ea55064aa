-- ===== src/ScannerIpc.antt =====
-- The pipe from the scanner process: apps/api/src/scanner-ipc.
pub mod Frame
pub mod Read
mod Tests
