-- ===== src/Runtime.antt =====
-- crates/claw-runtime: the agents at run time.
pub mod A2a
pub mod Events
pub mod EventTrigger
