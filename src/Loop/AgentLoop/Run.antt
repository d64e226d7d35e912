-- ===== src/Loop/AgentLoop/Run.antt =====
-- The run of crates/claw-loop/src/agent_loop.rs: it ends, and how.
use claw_kernel.Prelude.{
  ℕ, zero, suc, ◌+◌, ◌≤◌, ◌<◌, ◌≡◌, refl, ap, Bool, List, [], Result, ok, err, String, Option, none,
  some, arith,
}
use claw_kernel.Loop.StateMachine.{AgentState, running, error, start, StateMachine}
use claw_kernel.Loop.StateMachine
use claw_kernel.Loop.StateMachine.Graph.{HasTable, idle_start, transition_along, Edge}
use claw_kernel.Loop.StopConditions.{StopCondition}
use claw_kernel.Loop.Types.{
  AgentLoopConfig, AgentError, provider, AgentResult, user_message, new_loop_state,
}
use claw_kernel.Loop.Agent.{u32, Services, Agent, append, transition, apply_transition}
use claw_kernel.Loop.AgentLoop.{run_loop, run}
use claw_kernel.Loop.AgentLoop.Steps.{At, begin, walk, moved}
use claw_kernel.Loop.AgentLoop.Turn.{Completes, Ended, goes_on, completes, fails}
use claw_kernel.Loop.AgentLoop.Round.{round_ends}

new-HasTable : HasTable StateMachine.new
new-HasTable = record { same_transitions = refl; same_allowed = refl }

new_starts : Edge StateMachine.new.current start running
unfolding StateMachine.new
new_starts = idle_start

-- The agent with a new machine and new local variables.
abbrev afresh : {W : Type 0} → Agent W → Agent W
afresh a = record a {
  machine = StateMachine.new;
  loop_state = new_loop_state;
  tool_calls_accumulated = [];
}

start_moves :
    {W : Type 0} (a : Agent W) → transition start (afresh a) ≡ (ok tt, moved running (afresh a))
unfolding transition apply_transition
start_moves a = rw (transition_along StateMachine.new start {t = running} new-HasTable new_starts)

starts_running : {W : Type 0} (a : Agent W) → At a.broadcasts running (moved running (afresh a))
starts_running a = record {
  table = record { same_transitions = refl; same_allowed = refl };
  current = refl;
  shared = refl;
  trace = walk begin idle_start;
}

module _ {W J : Type 0} (services : Services W J) (config : AgentLoopConfig)
    (stop_conditions : List StopCondition) (has_registry : Bool) where
  -- A run ends with a result that `Completes` describes, or with an error of the provider in the
  -- state `error`.
  pub data RunEnds (base : List AgentState) : Result AgentError AgentResult × Agent W → Type 0 where
    run_completes :
        {r : AgentResult} {a : Agent W}
        → Completes services config stop_conditions has_registry base r a
        → RunEnds base (ok r, a)
    run_fails :
        {text : String} {a : Agent W} → At base error a → RunEnds base (err (provider text), a)

  abbrev pub Returns : List AgentState → Option (Result AgentError AgentResult × Agent W) → Type 0
  Returns base o = (r : Result AgentError AgentResult × Agent W) × (o ≡ some r) × RunEnds base r

  -- What the loop does with the outcome of a round.
  abbrev proceed :
      ℕ
      → Result AgentError (Option AgentResult) × Agent W
      → Option (Result AgentError AgentResult × Agent W)
  proceed fuel r = elim r.0 [
    | err e ↦ some (err e, r.1)
    | ok (some x) ↦ some (ok x, r.1)
    | ok none ↦ run_loop services config stop_conditions has_registry fuel r.1
  ]

  proceeds :
      {base : List AgentState} (fuel k : ℕ) {r : Result AgentError (Option AgentResult) × Agent W}
      → Ended services config stop_conditions has_registry base k r
      → ((a : Agent W)
          → At base running a
          → a.loop_state.turn ≡ k
          → k ≤ config.max_turns
          → Returns base (run_loop services config stop_conditions has_registry fuel a))
      → Returns base (proceed fuel r)
  proceeds fuel k (goes_on {a} h e b) next = next a h e b
  proceeds fuel k (completes c) next = (_, refl, run_completes c)
  proceeds fuel k (fails h) next = (_, refl, run_fails h)

  run_loop_ends :
      {base : List AgentState} (fuel : ℕ) (a : Agent W)
      → At base running a
      → a.loop_state.turn ≤ config.max_turns
      → config.max_turns < u32
      → config.max_turns < fuel + a.loop_state.turn
      → Returns base (run_loop services config stop_conditions has_registry fuel a)
  unfolding run_loop
  run_loop_ends zero a h b w f = absurd (omega arith)
  run_loop_ends (suc fuel) a h b w f =
      proceeds fuel (suc (a.loop_state.turn))
        (round_ends services config stop_conditions has_registry a h b w)
        (λ a' h' e b'. run_loop_ends fuel a' h' (omega (arith, e)) w (omega (arith, e)))

  run_starts :
      (fuel : ℕ) (initial_message : String) (a : Agent W)
      → run services config stop_conditions has_registry fuel initial_message a
        ≡ run_loop services config stop_conditions has_registry fuel
            (append (user_message initial_message) (moved running (afresh a)))
  unfolding run
  run_starts fuel initial_message a =
      ap
        (λ r. elim r.0 [
          | err e ↦ some (err e, r.1)
          | ok _ ↦
              run_loop services config stop_conditions has_registry fuel
                (append (user_message initial_message) r.1)
        ])
        (start_moves a)

  -- A run of a loop whose limit of turns fits u32, on fuel above that limit, returns. It returns a
  -- result with the machine, the shared state and the last broadcast at `completed`, the
  -- completion published under the name of its reason, the counts of the loop's state, the last
  -- message of the history and its content, at most the configured turns, and a reason that holds:
  -- a stop comes directly after an answer within the budget that asks for no tool, or for which
  -- tools are off; the limit of turns is reached and no stop condition holds; the budget is
  -- reached; or a stop condition holds. Or it returns an error of the provider, with all three at
  -- `error`; never a refused transition. The states it broadcast are a walk along the diagram from
  -- `idle`.
  pub run_ends :
      (fuel : ℕ) (initial_message : String) (a : Agent W)
      → config.max_turns < u32
      → config.max_turns < fuel
      → Returns a.broadcasts
          (run services config stop_conditions has_registry fuel initial_message a)
  run_ends fuel initial_message a w f = rw (run_starts fuel initial_message a) (
      run_loop_ends fuel (append (user_message initial_message) (moved running (afresh a)))
        (starts_running a) (omega arith) w (omega arith))
