-- ===== src/Target.antt =====
-- The network target of a scan: apps/api/src/target.
pub mod IpText
pub mod IpPolicy
pub mod Hostname
pub mod Resolver
pub mod SafeHttpFlow
mod Tests
