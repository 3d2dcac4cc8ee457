-- ===== src/Detection.antt =====
-- internal/detection: deterministic observations about a session of canonical events.
pub mod Types
pub mod Try
pub mod Groups
pub mod Durations
pub mod Events
pub mod ToolIdentity
pub mod Decimal
pub mod Coalesce
pub mod Merge
pub mod Prepare
pub mod Attempts
pub mod Pairing
pub mod Absence
pub mod Reports
pub mod Detectors
pub mod Validation
pub mod Registry
pub mod Catalog
