-- ===== src/Notifications.antt =====
-- Notifications: apps/api/src/notifications.
pub mod DeliveryFsm
mod Tests
