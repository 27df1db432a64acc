-- ===== src/Examples.antt =====
-- The theorems at concrete inputs.
mod Fixture
mod Rules
mod Views
mod Cycles
mod Bus
mod Saving
mod Handlers
mod Monitors
