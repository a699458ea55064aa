-- ===== src/ScanProtocol.antt =====
-- The scan execution protocol: apps/api/src/scan-protocol/{model,fsm,result-commit}.ts.
pub mod Fsm
pub mod ResultCommit
mod Tests
