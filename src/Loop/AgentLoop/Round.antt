-- ===== src/Loop/AgentLoop/Round.antt =====
-- Rounds of the loop of crates/claw-loop/src/agent_loop.rs: the guards, the call of the model and the
-- rest of the round.
use claw_kernel.Prelude.{
  suc, ◌+◌, ◌%◌, ◌≤◌, ◌<◌, ◌≡◌, refl, sym, subst, length, List, Result, ok, err, Option, Bool, leb,
  leb→le, by_test, arith,
}
use claw_kernel.Provider.{ProviderError}
use claw_kernel.Loop.StateMachine.{AgentState, running, awaiting_llm, error}
use claw_kernel.Loop.StateMachine.Graph.{running_request, running_stop, awaiting_fault}
use claw_kernel.Loop.StopConditions.{StopCondition, any_stops}
use claw_kernel.Loop.Types.{
  CompletionResponse, AgentLoopConfig, AgentError, provider, AgentResult, llm_request, turn_started,
  FinishReason, max_turns, token_budget, stop_condition,
}
use claw_kernel.Loop.Agent.{u32, Services, Agent, M, ◌>>=◌, ◌>>◌, publish, stop_at_guard, modify}
use claw_kernel.Loop.AgentLoop.{
  over_budget, check_guards, request, answer_or_fail, call_llm, count_usage, handle_response,
  answer_turn, go_on, turn_round,
}
use claw_kernel.Loop.AgentLoop.Steps.{
  At, counted, moved, moved-At, after, broken, moves, after, broken,
}
use claw_kernel.Loop.AgentLoop.Turn.{
  Ended, completes, fails, Justified, reason_name, guard_completes,
}
use claw_kernel.Loop.AgentLoop.Answers.{response_handled}

module _ {W J : Type 0} (services : Services W J) (config : AgentLoopConfig)
    (stop_conditions : List StopCondition) (has_registry : Bool) where
  -- The rest of the round after the model's answer.
  abbrev rest : CompletionResponse → M W (Option AgentResult)
  rest response = do
    modify (count_usage services config stop_conditions has_registry response)
    handle_response services config stop_conditions has_registry response

  fault_told :
      {base : List AgentState} (e : ProviderError) (a : Agent W)
      → At base awaiting_llm a
      → answer_or_fail services config stop_conditions has_registry (err e) a
        ≡ (err (provider (services.error_text e)), moved error a)
  unfolding answer_or_fail
  fault_told e a h = rw (moves a h awaiting_fault)

  on_outcome :
      {base : List AgentState} (o : Result ProviderError CompletionResponse) (a : Agent W)
      → At base awaiting_llm a
      → a.loop_state.turn < config.max_turns
      → config.max_turns < u32
      → Ended services config stop_conditions has_registry base
          (suc (a.loop_state.turn))
          ((answer_or_fail services config stop_conditions has_registry o >>= rest) a)
  unfolding answer_or_fail count_usage
  on_outcome {base} (ok response) a h b w =
      subst
        (λ n. Ended services config stop_conditions has_registry base n (
          handle_response services config stop_conditions has_registry response
            (count_usage services config stop_conditions has_registry response a)))
        next_turn
        (response_handled services config stop_conditions has_registry
          (count_usage services config stop_conditions has_registry response a) response
          (counted _ h) (omega (arith, next_turn)))
    where
      next_turn : (a.loop_state.turn + 1) % u32 ≡ suc (a.loop_state.turn)
      next_turn = ground arith
  on_outcome (err e) a h b w =
      rw
        (broken (answer_or_fail services config stop_conditions has_registry (err e)) rest
          (fault_told e a h))
        (fails (moved-At a h awaiting_fault))

  requested : Agent W → Agent W
  requested a =
      moved awaiting_llm
        (publish (llm_request services.provider_id services.model_id (length a.history)) a)

  call_llm_moves :
      {base : List AgentState} (a : Agent W)
      → At base running a
      → call_llm services config stop_conditions has_registry a
        ≡ (request services config stop_conditions has_registry a.history
              >>= answer_or_fail services config stop_conditions has_registry)
            (requested a)
  unfolding call_llm requested
  call_llm_moves a h = rw (
      moves (publish (llm_request services.provider_id services.model_id (length a.history)) a) h
        running_request)

  turn_answered :
      {base : List AgentState} (a : Agent W)
      → At base running a
      → a.loop_state.turn < config.max_turns
      → config.max_turns < u32
      → Ended services config stop_conditions has_registry base
          (suc (a.loop_state.turn))
          (answer_turn services config stop_conditions has_registry a)
  unfolding answer_turn request requested
  turn_answered a h b w =
      rw
        (after (call_llm services config stop_conditions has_registry)
          (request services config stop_conditions has_registry a.history
            >>= answer_or_fail services config stop_conditions has_registry)
          rest (call_llm_moves a h))
        (on_outcome _ _ (moved-At a h running_request) b w)

  guards_passed :
      {base : List AgentState} (a : Agent W)
      → At base running a
      → a.loop_state.turn ≤ config.max_turns
      → config.max_turns < u32
      → Ended services config stop_conditions has_registry base (suc (a.loop_state.turn)) (
          (check_guards services config stop_conditions has_registry
              >>= go_on services config stop_conditions has_registry)
            a)
  unfolding go_on check_guards
  guards_passed {base} a h b w =
      by_test Goes (any_stops stop_conditions a.loop_state) _ _ (guard_stops stop_condition)
        (λ free.
          by_test Goes (leb config.max_turns a.loop_state.turn) _ _
            (λ enough. guard_stops max_turns (free, leb→le _ _ enough))
            (λ more.
              by_test Goes (over_budget services config stop_conditions has_registry a.loop_state) _
                _ (guard_stops token_budget) (λ _. turn_answered a h (ground arith) w)))
    where
      Goes : Result AgentError (Option AgentResult) × Agent W → Type 0
      Goes r =
          Ended services config stop_conditions has_registry base (suc (a.loop_state.turn))
            (elim r.0 [
              | ok x ↦ go_on services config stop_conditions has_registry x r.1
              | err e ↦ (err e, r.1)
            ])

      guard_stops :
          (reason : FinishReason)
          → Justified services config stop_conditions has_registry reason a.loop_state a.history
              a.events
          → Goes (
              stop_at_guard reason
                (reason_name services config stop_conditions has_registry reason)
                a)
      guard_stops reason j =
          subst Goes
            (sym (guard_completes services config stop_conditions has_registry {a = a} reason _ h))
            (completes (record {
              at_end = moved-At a h running_stop;
              turns_counted = refl;
              usage_counted = refl;
              calls_kept = refl;
              turns_within = b;
              last_kept = refl;
              content_kept = refl;
              completion_published = (_, refl, j);
            }))

  pub round_ends :
      {base : List AgentState} (a : Agent W)
      → At base running a
      → a.loop_state.turn ≤ config.max_turns
      → config.max_turns < u32
      → Ended services config stop_conditions has_registry base
          (suc (a.loop_state.turn))
          (turn_round services config stop_conditions has_registry a)
  unfolding turn_round
  round_ends a h b w = guards_passed (publish (turn_started (a.loop_state.turn)) a) h b w
