-- ===== src/Loop/AgentLoop/Answers.antt =====
-- The rest of a round of crates/claw-loop/src/agent_loop.rs after the model's answer.
use claw_kernel.Prelude.{
  ◌≤◌, ◌≡◌, refl, List, [], ◌∷◌, Option, Bool, false, inl, inr, ◌⊎◌, ◌∙◌, some, last?, last?-append,
  Bool-cases, by_test,
}
use claw_kernel.Loop.StateMachine.{AgentState, awaiting_llm}
use claw_kernel.Loop.StopConditions.{StopCondition}
use claw_kernel.Loop.Types.{
  ToolCall, CompletionResponse, AgentLoopConfig, AgentResult, stop, token_budget,
}
use claw_kernel.Loop.Agent.{Services, Agent, M, append}
use claw_kernel.Loop.AgentLoop.{
  over_budget, handle_calls, wanted_calls, handle_response, stop_after_response,
}
use claw_kernel.Loop.AgentLoop.Steps.{At}
use claw_kernel.Loop.AgentLoop.Turn.{Ended, JustAnswered, completes_after_response}
use claw_kernel.Loop.AgentLoop.ToolTurn.{run_tools_goes_on, refuse_tools_goes_on}

module _ {W J : Type 0} (services : Services W J) (config : AgentLoopConfig)
    (stop_conditions : List StopCondition) (has_registry : Bool) where
  -- What is to be known where the calls of an answer are handled.
  Answered : Agent W → List ToolCall → CompletionResponse → Type 0
  Answered a calls response =
      (over_budget services config stop_conditions has_registry a.loop_state ≡ false)
      × (last? a.history ≡ some (response.message))
      × (wanted_calls services config stop_conditions has_registry (response.message.tool_calls)
          ≡ calls)
      × JustAnswered services config stop_conditions has_registry a.events

  no_tools :
      {base : List AgentState} (a : Agent W) (calls : List ToolCall) (response : CompletionResponse)
      → At base awaiting_llm a
      → a.loop_state.turn ≤ config.max_turns
      → Answered a calls response
      → (calls ≡ []) ⊎ (config.tool_use_enabled ≡ false)
      → Ended services config stop_conditions has_registry base a.loop_state.turn
          (stop_after_response services config stop_conditions has_registry stop "stop" response a)
  unfolding Answered
  no_tools a calls response h b (within, lst, wanted, answered) none =
      completes_after_response services config stop_conditions has_registry a stop response h b lst
        (within, rw lst (elim none [ inl e ↦ inl (wanted ∙ e) | inr e ↦ inr e ]), answered)

  calls_handled :
      {base : List AgentState} (a : Agent W) (calls : List ToolCall) (response : CompletionResponse)
      → At base awaiting_llm a
      → a.loop_state.turn ≤ config.max_turns
      → Answered a calls response
      → Ended services config stop_conditions has_registry base a.loop_state.turn
          (handle_calls services config stop_conditions has_registry calls response a)
  calls_handled a [] response h b answered = no_tools a [] response h b answered (inl refl)
  calls_handled {base} a (c ∷ cs) response h b answered =
      by_test
        (λ (m : M W (Option AgentResult)).
          Ended services config stop_conditions has_registry base a.loop_state.turn (m a))
        config.tool_use_enabled _ _
        (λ _.
          by_test
            (λ (m : M W (Option AgentResult)).
              Ended services config stop_conditions has_registry base a.loop_state.turn (m a))
            has_registry _ _
            (λ _. run_tools_goes_on services config stop_conditions has_registry a (c ∷ cs) h b)
            (λ _. refuse_tools_goes_on services config stop_conditions has_registry a (c ∷ cs) h b))
        (λ off. no_tools a (c ∷ cs) response h b answered (inr off))

  pub response_handled :
      {base : List AgentState} (a : Agent W) (response : CompletionResponse)
      → At base awaiting_llm a
      → a.loop_state.turn ≤ config.max_turns
      → Ended services config stop_conditions has_registry base a.loop_state.turn
          (handle_response services config stop_conditions has_registry response a)
  unfolding handle_response Answered
  response_handled a response h b =
      elim (Bool-cases (over_budget services config stop_conditions has_registry a.loop_state)) [
        | inl over ↦ rw over (
            completes_after_response services config stop_conditions has_registry
              (append (response.message) a) token_budget response h b
              (last?-append a.history response.message) over)
        | inr within ↦ rw within (
            calls_handled _
              (wanted_calls services config stop_conditions has_registry
                (response.message.tool_calls))
              response h b
              (
                within,
                last?-append a.history response.message,
                refl,
                (response.usage, response.reason, a.events, refl),
              ))
      ]
