-- ===== src/Experience.antt =====
-- internal/experience: the versioned contracts of learned experiences.
pub mod Enums
pub mod Verifier
pub mod Model
pub mod Lifecycle
pub mod Validate
pub mod PathMatch
pub mod Conflict
pub mod Normalize
pub mod Approval
