-- ===== src/Pep.antt =====
-- pep/src/lib.rs: verification of a capability before its tool call.
pub mod Messages
pub mod Verify
pub mod Soundness
pub mod Acceptance
pub mod Completeness
pub mod Tampering
