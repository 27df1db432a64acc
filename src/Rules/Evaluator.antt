-- ===== src/Rules/Evaluator.antt =====
-- rules/evaluator.rs: the comparison of a live value with the expected one, the continuity check
-- over metric samples, and the evaluation of a condition tree.
pub mod Compare
pub mod Held
pub mod Evaluate
pub mod Meaning
