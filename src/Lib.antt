-- ===== src/Lib.antt =====
-- claw-kernel: the core logic of an agent kernel, and the theorems that make it correct.
--
-- The parts of the program that are modelled, and the files that model them:
-- - crates/claw-loop: an agent talks to a language model in turns. The state machine of the loop
--   (state_machine.rs) is Loop/StateMachine; the diagram that it implements is the relation `Edge` in
--   Loop/StateMachine/Graph, and what holds over sequences of events is in Loop/StateMachine/Traces.
--   The loop itself (agent_loop.rs: `run`, `transition`, `execute_tools_parallel`) is Loop/Agent (the
--   fields, `transition`, the guards' exits), Loop/ToolCalls (step 6 with and without a registry) and
--   Loop/AgentLoop (the rounds). A method is a function from the agent to a result or an error and the
--   agent after it, an early return is an outcome `ok (some result)` of a round, and `?` is the bind of
--   that monad. The stop conditions (stop_conditions.rs) are Loop/StopConditions; the values are
--   Loop/Types. Loop/AgentLoop/{Steps, Turn, ToolTurn, Answers, Round, Run} prove how a run ends, and
--   Loop/AgentLoop/Tools what a tool turn adds. The in-memory history (history.rs) is Loop/History.
-- - crates/claw-pal/src/retry.rs: the backoff delay and the retry loop, in Retry, with the proofs in
--   Retry/Delay and Retry/Attempts. crates/claw-provider/src/retry.rs, which the agent loop calls, is
--   Provider/Retry; crates/claw-channel/src/retry.rs, which wraps a channel, is Channel/Retry.
-- - crates/claw-channel/src/router.rs: the rules and the routing are Channel/Router (proofs in
--   Matching, Agents, Precedence and Removal below it), the builder and the configuration file are
--   Channel/RouterBuilder, and the router that drops repeated messages is Channel/DeduplicatingRouter.
--   What deduplication promises is the specification Channel/Dedup, which
--   Channel/DeduplicatingRouter/Refines and Server/ChannelRegistry/Laws show of the two components
--   that deduplicate.
-- - crates/claw-server: the registered channels (channel_registry.rs) are Server/ChannelRegistry, the
--   sessions and their index by agent (session.rs) are Server/Session, with the invariant in Index and
--   Histories and the rebinding of an agent in Rebinding.
-- - crates/claw-tools/src/hot_reload/versioned.rs: a module with its version history and rollbacks is
--   Tools/Versioned; History has the lemmas on the numbered versions, Reachable the invariant over all
--   calls, Rollback what a rollback restores.
-- - crates/claw-tools/src/registry.rs: the tools of an agent and the calls of them. The values are
--   Tools/Types, the permission checks Tools/Permissions, the audit log in memory Tools/AuditLog, the
--   registry Tools/Registry with `execute` in Execution and `load_from_script` in Scripts below it. An
--   operation gives the registry, its effects in the order of the code (events, audit records, the
--   sandbox, the start of a tool) and what it returns. Execution/Safety is about when a tool starts,
--   Execution/{Outcomes, Steps} describe a call as a step, and Histories about any sequence of
--   operations: Invariants of the log, the calls and the sandbox, Modes of the power mode.
-- - crates/claw-pal/src/security.rs: power keys, their validation and hashes, and the transition of
--   modes, in Security; Keys says which keys are accepted, Sessions which keys a hash lets in.
-- - crates/claw-runtime/src/a2a: messages between agents (protocol.rs) are Runtime/A2a, the five
--   channels of an agent with `recv` and `send` (routing.rs) Runtime/A2a/Mailbox, and the router
--   Runtime/A2a/Router, where the mailboxes stand in a store that handles share; its child Reachable
--   says which routers calls reach. The events of the bus
--   (events.rs, trigger_event.rs) are Runtime/Events, and the rules that fire triggers
--   (event_trigger.rs) Runtime/EventTrigger.
-- - crates/claw-memory/src: the items and the interface of a memory (types.rs, config.rs, traits.rs) are
--   Memory, the store in one namespace with a quota (secure.rs) Memory/Secure, with Quota and Isolation.
-- - crates/claw-pal/src/ipc/framing.rs: length-prefixed frames are Ipc/Framing, with the round trip
--   below it. The byte stream is the interface `ByteStream`.
-- - Prelude holds the shared names and lemmas, and the interface `KeyedMap` of a hash map with an
--   association list that meets its laws (KeyedMap/Listing has those of an iteration over it). Examples holds runs of the code and the theorems at concrete
--   inputs.
--
-- How the code is represented:
-- - Numbers are natural numbers. The wrap-around of u32, u64 and u128 is written out where the code
--   relies on the width; sums of token counts and powers of two wrap as in a release
--   build (a debug build panics there).
-- - `AgentLoop::run` is on fuel, a round each. Every round that goes on counts a turn, so fuel above
--   `max_turns` is enough; a limit that fits u32 is what the type of the field guarantees.
-- - A retry loop `for attempt in 0..=max_retries` is structural recursion on the rounds left, and needs
--   no fuel.
-- - Instants and random draws are arguments. A lock that is poisoned is a field of the router. A panic
--   is the outcome `none`, as of a channel without room in `register_agent`. The poisoned lock of a
--   tool registry, after which its mode stays as it is, does not arise in one operation at a time.
-- - The rules of event triggers run on a bus to which they alone publish, under the default strategy: a
--   receiver with more waiting than the bus holds has lagged, and the error ends the loop.
-- - The run of a tool, what arrives while `recv` waits, and the order in which a hash map gives its
--   entries are arguments. A send to a full channel is the outcome `none`: the sender waits.
-- - The language model, the tool registry as the agent loop sees it, the JSON library, the regex crate,
--   glob patterns, password hashes, the TOML parser, hash maps, the random number generator, byte
--   streams, the inner channel and the wrapped memory are parameters: records of operations, with laws
--   only where a hash map or a byte stream is used. A tool leaves the state of the provider as it is.
--
-- What is not modelled: the streaming variants of the agent loop and their channels; interleavings
-- of concurrent calls on one component (each operation is a step); wall-clock times of results;
-- the histories in a database; the event bus itself, its other lag strategies and publishers; log
-- output. The crates for scripts, the memory's database, skills, platform sandboxes, the runtime's
-- orchestration and the server's protocol are left out; of the tool registry, loading a directory,
-- hot loading and the built-in tools; of the power keys, the audited session and the key files.
pub mod Prelude
pub mod Loop
pub mod Memory
pub mod Retry
pub mod Provider
pub mod Channel
pub mod Security
pub mod Runtime
pub mod Server
pub mod Tools
pub mod Ipc
mod Examples
