-- ===== src/Examples.antt =====
-- The properties at concrete inputs.
mod Data
mod Proposals
mod Evaluations
mod Transitions
mod Sessions
mod Detections
