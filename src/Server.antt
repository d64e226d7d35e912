-- ===== src/Server.antt =====
-- crates/claw-server: the registry of channels and the manager of sessions.
pub mod ChannelRegistry
pub mod Session
