-- ===== src/Experience/Validate.antt =====
-- internal/experience/validate.go.
pub mod Fields
pub mod Records
pub mod Evidence
pub mod Verifiers
pub mod Contracts
pub mod Semantic
pub mod Tracking
pub mod Candidates
