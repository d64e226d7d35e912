-- ===== src/Tools.antt =====
-- crates/claw-tools: the tools of an agent.
pub mod Types
pub mod Permissions
pub mod AuditLog
pub mod Registry
pub mod Versioned
