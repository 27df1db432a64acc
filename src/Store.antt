-- ===== src/Store.antt =====
-- The database: its rows, its tables and the queries of backend/src/db on them.
pub mod Rows
pub mod Tables
pub mod Monitors
pub mod Firings
pub mod Retention
pub mod Rules
pub mod Readings
pub mod Groups
pub mod Channels
pub mod Webhooks
pub mod Ownership
pub mod Confined
