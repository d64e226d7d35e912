-- ===== src/Loop/StateMachine/Traces.antt =====
-- What holds of the state machine over every sequence of events.
use claw_kernel.Prelude.{
  ◌≤◌, ◌≡◌, refl, ◌⊎◌, inl, inr, List, [], ◌∷◌, arith, length, Bool-cases, Bool, true, false,
}
use claw_kernel.Loop.StateMachine.{
  AgentState, idle, running, awaiting_llm, tool_executing, paused, completed, error, StateEvent,
  llm_request_sent, tools_required, user_interrupt, reset, StateMachine, new, transition, event_eq,
}
use claw_kernel.Loop.StateMachine.Graph.{
  Edge, member, HasTable, transition-HasTable, transition_follows_edges, idle_start, idle_reset,
  running_request, running_stop, running_fault, running_interrupt, awaiting_response,
  awaiting_tools, awaiting_fault, awaiting_interrupt, executing_done, executing_fault,
  executing_interrupt, paused_start, paused_reset, completed_reset, error_reset,
}

-- The machine after a sequence of `transition` calls, refused ones included.
unfoldable pub run_events : StateMachine → List StateEvent → StateMachine
run_events m [] = m
run_events m (e ∷ es) = run_events (transition m e).0 es

pub run_events-HasTable :
    (m : StateMachine) (es : List StateEvent) → HasTable m → HasTable (run_events m es)
unfolding run_events
run_events-HasTable m [] h = h
run_events-HasTable m (e ∷ es) h =
    run_events-HasTable (transition m e).0 es (transition-HasTable m e h)

-- One step of the machine with the table: it stays or goes along an edge.
step_current :
    (m : StateMachine) (e : StateEvent)
    → HasTable m
    → ((transition m e).0.current ≡ m.current) ⊎ Edge m.current e (transition m e).0.current
step_current m e h = elim (transition_follows_edges m e h) [
  | inl (t, edge, eq) ↦ rw eq (inr edge)
  | inr (_, eq) ↦ rw eq (inl refl)
]

abbrev pub IsTerminal : AgentState → Type 0
IsTerminal s = (s ≡ completed) ⊎ (s ≡ error)

terminal-Edge : {s t : AgentState} {e : StateEvent} → Edge s e t → IsTerminal s → e ≡ reset
terminal-Edge idle_start h = absurd (ground arith)
terminal-Edge idle_reset h = refl
terminal-Edge running_request h = absurd (ground arith)
terminal-Edge running_stop h = absurd (ground arith)
terminal-Edge running_fault h = absurd (ground arith)
terminal-Edge running_interrupt h = absurd (ground arith)
terminal-Edge awaiting_response h = absurd (ground arith)
terminal-Edge awaiting_tools h = absurd (ground arith)
terminal-Edge awaiting_fault h = absurd (ground arith)
terminal-Edge awaiting_interrupt h = absurd (ground arith)
terminal-Edge executing_done h = absurd (ground arith)
terminal-Edge executing_fault h = absurd (ground arith)
terminal-Edge executing_interrupt h = absurd (ground arith)
terminal-Edge paused_start h = absurd (ground arith)
terminal-Edge paused_reset h = refl
terminal-Edge completed_reset h = refl
terminal-Edge error_reset h = refl

reset_is_member : (e : StateEvent) (es : List StateEvent) → e ≡ reset → member reset (e ∷ es) ≡ true
reset_is_member e es h = rw h

-- A machine with the table of `new` that has completed or failed stays exactly as it is through
-- any sequence of events that holds no reset.
terminal_absorbs :
    (m : StateMachine) (es : List StateEvent)
    → HasTable m
    → IsTerminal m.current
    → member reset es ≡ false
    → run_events m es ≡ m
unfolding run_events
terminal_absorbs m [] h t no_reset = refl
terminal_absorbs m (e ∷ es) h t no_reset = elim (transition_follows_edges m e h) [
  | inl (s, edge, _) ↦ absurd (cc (reset_is_member e es (terminal-Edge edge t)))
  | inr (_, eq) ↦ rw eq (terminal_absorbs m es h t (ground arith))
]

-- From every state of a machine with the table of `new` some sequence of at most two events leads
-- back to idle, also from the states in which a reset is refused.
pub idle_within_two :
    (m : StateMachine)
    → HasTable m
    → (es : List StateEvent) × (length es ≤ 2) × ((run_events m es).current ≡ idle)
unfolding run_events transition new
idle_within_two m h = by_state m.current refl
  where
    by_state :
        (s : AgentState)
        → m.current ≡ s
        → (es : List StateEvent) × (length es ≤ 2) × ((run_events m es).current ≡ idle)
    by_state idle e = ([], omega arith, e)
    by_state running e = (user_interrupt ∷ reset ∷ [], omega arith, ground arith)
    by_state awaiting_llm e = (user_interrupt ∷ reset ∷ [], omega arith, ground arith)
    by_state tool_executing e = (user_interrupt ∷ reset ∷ [], omega arith, ground arith)
    by_state paused e = (reset ∷ [], omega arith, ground arith)
    by_state completed e = (reset ∷ [], omega arith, ground arith)
    by_state error e = (reset ∷ [], omega arith, ground arith)

-- The states in which no request is out, and those in which no tool runs.
abbrev no_request : AgentState → Bool
no_request awaiting_llm = false
no_request tool_executing = false
no_request _ = true

abbrev no_tool : AgentState → Bool
no_tool tool_executing = false
no_tool _ = true

module _ (m : StateMachine) (e : StateEvent) (h : HasTable m) where
  step_no_request :
      no_request m.current ≡ true
      → event_eq e llm_request_sent ≡ false
      → no_request (transition m e).0.current ≡ true
  unfolding transition new
  step_no_request a ne = ground arith

  step_no_tool :
      no_tool m.current ≡ true
      → event_eq e tools_required ≡ false
      → no_tool (transition m e).0.current ≡ true
  unfolding transition new
  step_no_tool a ne = ground arith

needs_request :
    (m : StateMachine) (es : List StateEvent)
    → HasTable m
    → no_request m.current ≡ true
    → no_request (run_events m es).current ≡ false
    → member llm_request_sent es ≡ true
unfolding run_events
needs_request m [] h a b = cc
needs_request m (e ∷ es) h a b = elim (Bool-cases (event_eq e llm_request_sent)) [
  | inl here ↦ rw here
  | inr other ↦ rw other (
      needs_request (transition m e).0 es (transition-HasTable m e h)
        (step_no_request m e h a other) b)
]

needs_tools :
    (m : StateMachine) (es : List StateEvent)
    → HasTable m
    → no_tool m.current ≡ true
    → no_tool (run_events m es).current ≡ false
    → member tools_required es ≡ true
unfolding run_events
needs_tools m [] h a b = cc
needs_tools m (e ∷ es) h a b = elim (Bool-cases (event_eq e tools_required)) [
  | inl here ↦ rw here
  | inr other ↦
      rw other (
        needs_tools (transition m e).0 es (transition-HasTable m e h) (step_no_tool m e h a other)
          b)
]

-- A new machine executes tools only after events that hold both a sent request and a demand for
-- tools.
pub executing_needs_request :
    (es : List StateEvent)
    → (run_events new es).current ≡ tool_executing
    → (member llm_request_sent es ≡ true) × (member tools_required es ≡ true)
unfolding new
executing_needs_request es r =
    (needs_request new es fresh refl (rw r), needs_tools new es fresh refl (rw r))
  where
    fresh : HasTable new
    fresh = record { same_transitions = refl; same_allowed = refl }
