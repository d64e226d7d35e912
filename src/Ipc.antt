-- ===== src/Ipc.antt =====
-- crates/claw-pal/src/ipc: the messages between processes.
pub mod Framing
