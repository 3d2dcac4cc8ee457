-- ===== src/Evaluate.antt =====
-- internal/experience/evaluate: the deterministic evaluation of one delivered application.
pub mod Types
pub mod Matching
pub mod States
pub mod Applicability
pub mod Commands
pub mod Verdicts
pub mod Finish
pub mod Grounded
pub mod FactChecks
pub mod Inputs
pub mod Evaluator
