-- ===== src/Examples/StateMachines.antt =====
-- The state machine of crates/claw-loop/src/state_machine.rs at concrete inputs.
use claw_kernel.Prelude.{◌≡◌, refl, ◌⊎◌, List, [], ◌∷◌}
use claw_kernel.Loop.StateMachine.{
  AgentState, idle, running, tool_executing, completed, StateEvent, start, llm_request_sent,
  tools_required, stop_condition_met, StateMachine, success, invalid, call_hooks, new,
  on_transition, transition, valid_events,
}
use claw_kernel.Loop.StateMachine.Graph.{Edge, HasTable, transition_follows_edges}
use claw_kernel.Loop.StateMachine.Traces.{run_events}

-- A new machine with two hooks.
hooked : StateMachine
hooked = on_transition 8 (on_transition 7 new)

hooked-HasTable : HasTable hooked
unfolding hooked on_transition
hooked-HasTable = record { same_transitions = refl; same_allowed = refl }

hooked_starts :
    (transition hooked start).2
    ≡ record { hook = 7; old_state = idle; new_state = running }
      ∷ record { hook = 8; old_state = idle; new_state = running }
      ∷ []
unfolding hooked on_transition new transition
hooked_starts = refl

transition_follows_edges_example :
    ((t : AgentState) × Edge hooked.current start t
      × (transition hooked start ≡ (
        record hooked { current = t },
        success t,
        call_hooks hooked.current t hooked.transition_hooks,
      )))
    ⊎ (((t : AgentState) → ¬ Edge hooked.current start t)
        × (transition hooked start
            ≡ (hooked, invalid hooked.current start (valid_events hooked), [])))
transition_follows_edges_example = transition_follows_edges hooked start hooked-HasTable

-- A machine that has completed.
finished : StateMachine
finished = run_events hooked (start ∷ stop_condition_met ∷ [])

finished-HasTable : HasTable finished
unfolding finished run_events transition new hooked on_transition
finished-HasTable = record { same_transitions = refl; same_allowed = refl }

finished_completed : finished.current ≡ completed
unfolding finished run_events transition new hooked on_transition
finished_completed = refl

abbrev tool_turn : List StateEvent
tool_turn = start ∷ llm_request_sent ∷ tools_required ∷ []

tool_turn_executes : (run_events new tool_turn).current ≡ tool_executing
unfolding run_events transition new
tool_turn_executes = refl
