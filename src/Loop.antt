-- ===== src/Loop.antt =====
-- crates/claw-loop: the state machine of the agent loop, and the loop.
pub mod StateMachine
pub mod Types
pub mod StopConditions
pub mod Agent
pub mod ToolCalls
pub mod AgentLoop
pub mod History
