-- ===== src/Loop/StateMachine/Graph.antt =====
-- The transition diagram of the agent loop as a relation, independent of the table.
use claw_kernel.Prelude.{
  ◌≡◌, refl, ◌∙◌, ◌↔◌, ◌⊎◌, inl, inr, Option-cases, Bool, true, false, ◌||◌, Option, some, List, [],
  ◌∷◌, arith, is_some,
}
use claw_kernel.Loop.StateMachine.{
  AgentState, idle, running, awaiting_llm, tool_executing, paused, completed, error, StateEvent,
  start, llm_request_sent, llm_response_received, tools_required, tools_completed, user_interrupt,
  stop_condition_met, fault, reset, StateMachine, success, invalid, event_eq, get_transition,
  get_allowed, call_hooks, new, transition, valid_events, can_transition,
}

pub data Edge : AgentState → StateEvent → AgentState → Type 0 where
  idle_start : Edge idle start running
  idle_reset : Edge idle reset idle
  running_request : Edge running llm_request_sent awaiting_llm
  running_stop : Edge running stop_condition_met completed
  running_fault : Edge running fault error
  running_interrupt : Edge running user_interrupt paused
  awaiting_response : Edge awaiting_llm llm_response_received running
  awaiting_tools : Edge awaiting_llm tools_required tool_executing
  awaiting_fault : Edge awaiting_llm fault error
  awaiting_interrupt : Edge awaiting_llm user_interrupt paused
  executing_done : Edge tool_executing tools_completed running
  executing_fault : Edge tool_executing fault error
  executing_interrupt : Edge tool_executing user_interrupt paused
  paused_start : Edge paused start running
  paused_reset : Edge paused reset idle
  completed_reset : Edge completed reset idle
  error_reset : Edge error reset idle

pub ruleset edges = (
  idle_start, idle_reset, running_request, running_stop, running_fault, running_interrupt,
  awaiting_response, awaiting_tools, awaiting_fault, awaiting_interrupt, executing_done,
  executing_fault, executing_interrupt, paused_start, paused_reset, completed_reset, error_reset,
)

-- A machine with the table that `new` builds; every operation keeps the table.
pub record HasTable (m : StateMachine) : Type 0 where
  pub same_transitions : m.transitions ≡ new.transitions
  pub same_allowed : m.allowed_events ≡ new.allowed_events

next : AgentState → StateEvent → Option AgentState
next s e = get_transition new.transitions s e

allowed : AgentState → List StateEvent
allowed s = get_allowed new.allowed_events s

-- The table of the machine at hand answers as that of `new`.
found :
    (m : StateMachine) (e : StateEvent)
    → HasTable m
    → get_transition m.transitions m.current e ≡ next m.current e
unfolding next
found m e h = rw h.same_transitions

next-Edge : (s : AgentState) (e : StateEvent) {t : AgentState} → next s e ≡ some t → Edge s e t
unfolding next new
next-Edge s e h = grind (arith, edges)

Edge-next : {s t : AgentState} {e : StateEvent} → Edge s e t → next s e ≡ some t
unfolding next new
Edge-next idle_start = refl
Edge-next idle_reset = refl
Edge-next running_request = refl
Edge-next running_stop = refl
Edge-next running_fault = refl
Edge-next running_interrupt = refl
Edge-next awaiting_response = refl
Edge-next awaiting_tools = refl
Edge-next awaiting_fault = refl
Edge-next awaiting_interrupt = refl
Edge-next executing_done = refl
Edge-next executing_fault = refl
Edge-next executing_interrupt = refl
Edge-next paused_start = refl
Edge-next paused_reset = refl
Edge-next completed_reset = refl
Edge-next error_reset = refl

abbrev pub member : StateEvent → List StateEvent → Bool
member e [] = false
member e (e' ∷ es) = event_eq e' e || member e es

table_agrees : (s : AgentState) (e : StateEvent) → member e (allowed s) ≡ is_some (next s e)
unfolding next allowed new
table_agrees s e = ground arith

-- An operation other than `new` never touches the table.
pub transition-HasTable :
    (m : StateMachine) (e : StateEvent) → HasTable m → HasTable (transition m e).0
unfolding transition
transition-HasTable m e h = ground arith

pub transition_along :
    (m : StateMachine) (e : StateEvent) {t : AgentState}
    → HasTable m
    → Edge m.current e t
    → transition m e
      ≡ (record m { current = t }, success t, call_hooks m.current t m.transition_hooks)
unfolding transition
transition_along m e h edge = rw (found m e h ∙ Edge-next edge, transition) refl

-- In a machine with the table of `new`, an event follows an edge of the diagram, takes the machine
-- to the edge's end, changes nothing else and calls every hook once, in registration order, with
-- the old and the new state; an event with no edge is refused with the state, the event and the
-- allowed events, calls no hook and leaves the machine as it was.
pub transition_follows_edges :
    (m : StateMachine) (e : StateEvent)
    → HasTable m
    → ((t : AgentState) × Edge m.current e t
        × (transition m e
            ≡ (record m { current = t }, success t, call_hooks m.current t m.transition_hooks)))
      ⊎ (((t : AgentState) → ¬ Edge m.current e t)
          × (transition m e ≡ (m, invalid m.current e (valid_events m), [])))
unfolding transition valid_events
transition_follows_edges m e h = elim (Option-cases (next m.current e)) [
  | inl none_there ↦
      inr (λ t edge. cc (Edge-next edge), rw (found m e h ∙ none_there, transition) refl)
  | inr (t, there) ↦ inl (t, next-Edge m.current e there, rw (found m e h ∙ there, transition) refl)
]

next-Edge_found :
    (s : AgentState) (e : StateEvent) → is_some (next s e) ≡ true → (t : AgentState) × Edge s e t
next-Edge_found s e h = elim (Option-cases (next s e)) [
  | inl missing ↦ absurd (cc missing)
  | inr (t, there) ↦ (t, next-Edge s e there)
]

-- In a machine with the table of `new`, the list of valid events holds exactly the events that
-- `can_transition` accepts, and these are exactly the events that `transition` does not refuse.
valid_events-can_transition :
    (m : StateMachine) (e : StateEvent)
    → HasTable m
    → (member e (valid_events m) ≡ can_transition m e)
      × ((can_transition m e ≡ true) ↔ ((t : AgentState) × Edge m.current e t))
unfolding valid_events can_transition allowed
valid_events-can_transition m e h = (
  rw (h.same_allowed) (rw (found m e h) (table_agrees m.current e)),
  (
    λ c. next-Edge_found m.current e (rw (found m e h) at c),
    λ (t, edge). rw (found m e h) (rw (Edge-next edge)),
  ),
)
