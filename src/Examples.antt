-- ===== src/Examples.antt =====
-- Runs of the code at concrete inputs, and each theorem at an input that meets its hypotheses.
mod StateMachines
mod Loops
mod Memories
mod Retries
mod Routing
mod Servers
mod Modules
mod Frames
mod ToolRegistries
mod Messages
mod Keys
mod Events
