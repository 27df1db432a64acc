-- ===== src/Bus.antt =====
-- backend/src/bus: the consumers of the topics of Pulsar.
pub mod Consume
pub mod Webhooks
pub mod Escalations
