-- ===== src/Canonical.antt =====
-- Parts of internal/canonical.
pub mod Event
