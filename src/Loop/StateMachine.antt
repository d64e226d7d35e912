-- ===== src/Loop/StateMachine.antt =====
-- crates/claw-loop/src/state_machine.rs: the states, the events, the transition table as
-- `build_transition_table` fills it, and the operations of `StateMachine`.
-- The two hash maps are association lists; a hook stands for its closure by a number, and a
-- transition returns the calls it makes of the hooks, in order.
pub mod Graph
pub mod Traces
use claw_kernel.Prelude.{
  ℕ, ◌≡◌, Bool, true, false, ◌&&◌, Option, none, some, List, [], ◌∷◌, ◌++◌, map, length,
  if◌then◌else◌, ◌==◌, is_some,
}

pub data AgentState : Type 0 where
  idle running awaiting_llm tool_executing paused completed error : AgentState

pub data StateEvent : Type 0 where
  start llm_request_sent llm_response_received tools_required tools_completed : StateEvent
  user_interrupt stop_condition_met fault reset : StateEvent

pub data TransitionResult : Type 0 where
  success : AgentState → TransitionResult
  invalid : AgentState → StateEvent → List StateEvent → TransitionResult

-- The derived `PartialEq` of the two enums, by the place of a constructor.
abbrev state_index : AgentState → ℕ
state_index idle = 0
state_index running = 1
state_index awaiting_llm = 2
state_index tool_executing = 3
state_index paused = 4
state_index completed = 5
state_index error = 6

abbrev event_index : StateEvent → ℕ
event_index start = 0
event_index llm_request_sent = 1
event_index llm_response_received = 2
event_index tools_required = 3
event_index tools_completed = 4
event_index user_interrupt = 5
event_index stop_condition_met = 6
event_index fault = 7
event_index reset = 8

abbrev pub state_eq : AgentState → AgentState → Bool
state_eq a b = state_index a == state_index b

abbrev pub event_eq : StateEvent → StateEvent → Bool
event_eq a b = event_index a == event_index b

abbrev pub Transitions : Type 0
Transitions = List (AgentState × StateEvent × AgentState)

abbrev pub AllowedEvents : Type 0
AllowedEvents = List (AgentState × List StateEvent)

pub record StateMachine : Type 0 where
  pub current : AgentState
  pub transitions : Transitions
  pub allowed_events : AllowedEvents
  pub transition_hooks : List ℕ

-- A call of a hook, with the old and the new state.
pub record HookCall : Type 0 where
  pub hook : ℕ
  pub old_state : AgentState
  pub new_state : AgentState

abbrev pub get_transition : Transitions → AgentState → StateEvent → Option AgentState
get_transition [] s e = none
get_transition ((s', e', t) ∷ ts) s e =
    if state_eq s' s && event_eq e' e then some t else get_transition ts s e

abbrev insert_transition : AgentState → StateEvent → AgentState → Transitions → Transitions
insert_transition s e t [] = (s, e, t) ∷ []
insert_transition s e t ((s', e', t') ∷ ts) =
    if state_eq s' s && event_eq e' e
    then (s, e, t) ∷ ts
    else (s', e', t') ∷ insert_transition s e t ts

-- `get(..).cloned().unwrap_or_default()`.
abbrev pub get_allowed : AllowedEvents → AgentState → List StateEvent
get_allowed [] s = []
get_allowed ((s', es) ∷ m) s = if state_eq s' s then es else get_allowed m s

-- `entry(from).or_default().push(event)`.
abbrev push_allowed : AgentState → StateEvent → AllowedEvents → AllowedEvents
push_allowed s e [] = (s, e ∷ []) ∷ []
push_allowed s e ((s', es) ∷ m) =
    if state_eq s' s then (s', es ++ e ∷ []) ∷ m else (s', es) ∷ push_allowed s e m

abbrev add_transition : AgentState → StateEvent → AgentState → StateMachine → StateMachine
add_transition from event to m = record m {
  transitions = insert_transition from event to m.transitions;
  allowed_events = push_allowed from event m.allowed_events;
}

-- The calls of `add_transition`, in order.
abbrev rules : List (AgentState × StateEvent × AgentState)
rules =
    (idle, start, running)
    ∷ (idle, reset, idle)
    ∷ (running, llm_request_sent, awaiting_llm)
    ∷ (running, stop_condition_met, completed)
    ∷ (running, fault, error)
    ∷ (running, user_interrupt, paused)
    ∷ (awaiting_llm, llm_response_received, running)
    ∷ (awaiting_llm, tools_required, tool_executing)
    ∷ (awaiting_llm, fault, error)
    ∷ (awaiting_llm, user_interrupt, paused)
    ∷ (tool_executing, tools_completed, running)
    ∷ (tool_executing, fault, error)
    ∷ (tool_executing, user_interrupt, paused)
    ∷ (paused, start, running)
    ∷ (paused, reset, idle)
    ∷ (completed, reset, idle)
    ∷ (error, reset, idle)
    ∷ []

abbrev add_transitions : List (AgentState × StateEvent × AgentState) → StateMachine → StateMachine
add_transitions [] m = m
add_transitions ((from, event, to) ∷ rest) m = add_transitions rest (add_transition from event to m)

build_transition_table : StateMachine → StateMachine
build_transition_table m = add_transitions rules m

unfoldable pub new : StateMachine
unfolding build_transition_table
new =
    build_transition_table
      (record { current = idle; transitions = []; allowed_events = []; transition_hooks = [] })

-- Hooks are not cloned.
unfoldable pub clone : StateMachine → StateMachine
clone m = record m { transition_hooks = [] }

unfoldable pub on_transition : ℕ → StateMachine → StateMachine
on_transition hook m = record m { transition_hooks = m.transition_hooks ++ hook ∷ [] }

unfoldable pub hook_count : StateMachine → ℕ
hook_count m = length m.transition_hooks

unfoldable pub clear_hooks : StateMachine → StateMachine
clear_hooks m = record m { transition_hooks = [] }

abbrev pub call_hooks : AgentState → AgentState → List ℕ → List HookCall
call_hooks old new_state hooks =
    map (λ h. record { hook = h; old_state = old; new_state = new_state }) hooks

unfoldable pub valid_events : StateMachine → List StateEvent
valid_events m = get_allowed m.allowed_events m.current

unfoldable pub can_transition : StateMachine → StateEvent → Bool
can_transition m event = is_some (get_transition m.transitions m.current event)

unfoldable pub transition :
    StateMachine → StateEvent → StateMachine × TransitionResult × List HookCall
transition m event = elim (get_transition m.transitions m.current event) [
  | some new_state ↦ (
    record m { current = new_state },
    success new_state,
    call_hooks m.current new_state m.transition_hooks,
  )
  | none ↦ (m, invalid m.current event (get_allowed m.allowed_events m.current), [])
]

unfoldable pub reset_machine : StateMachine → StateMachine
reset_machine m = record m { current = idle }
