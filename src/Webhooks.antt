-- ===== src/Webhooks.antt =====
-- webhooks/: the events of Clever Cloud.
pub mod Event
pub mod Receiver
