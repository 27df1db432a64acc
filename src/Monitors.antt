-- ===== src/Monitors.antt =====
-- backend/src/monitors: the monitors of Clever Cloud's resources, kept in step with it.
pub mod Remote
pub mod StateMap
pub mod Sync
pub mod Poller
