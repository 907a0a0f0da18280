-- ===== src/Agent.antt =====
-- agent/src/lib.rs: the orchestrator and its principals.
pub mod Mode
pub mod Feedback
pub mod Orchestrator
pub mod Principal
pub mod Confinement
pub mod Offline
pub mod Monitor
pub mod AuditTrail
pub mod Trail
pub mod Accounts
pub mod AuditLog
pub mod Truncation
pub mod Replay
pub mod Chat
pub mod Client
