-- ===== src/Notifications.antt =====
-- notifications/
pub mod Dispatch
