-- ===== src/GuestAbuse.antt =====
-- Abuse control of guest scans: apps/api/src/guest-abuse. The policy's numbers are constants here.
pub mod Decide
pub mod Retention
pub mod Admission
mod Tests
