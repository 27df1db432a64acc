-- ===== src/Rules.antt =====
-- rules/: the workflow engine.
pub mod Condition
pub mod Field
pub mod Evaluator
pub mod Cooldown
pub mod Dependencies
pub mod Fetch
pub mod Trigger
pub mod Actions
pub mod Exec
pub mod Debug
pub mod Cycle
