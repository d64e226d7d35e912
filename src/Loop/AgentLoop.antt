-- ===== src/Loop/AgentLoop.antt =====
-- crates/claw-loop/src/agent_loop.rs: the rounds of `AgentLoop::run`, and the run on fuel.
pub mod Steps
pub mod Turn
pub mod ToolTurn
pub mod Answers
pub mod Round
pub mod Run
pub mod Tools
use claw_kernel.Prelude.{
  ℕ, zero, suc, ◌+◌, ◌%◌, Bool, true, false, not, ◌&&◌, Option, none, some, List, [], ◌∷◌, ◌++◌,
  map, String, if◌then◌else◌, ltb, leb, str_eq, length, take, last?, is_some, Result, ok, err,
}
use claw_kernel.Retry.{u64, Retried}
use claw_kernel.Provider.{ProviderError, other}
use claw_kernel.Provider.Retry
use claw_kernel.Loop.StateMachine.{
  AgentState, idle, StateEvent, start, llm_request_sent, llm_response_received, tools_required,
  tools_completed, stop_condition_met, fault, StateMachine, TransitionResult, success, invalid,
}
use claw_kernel.Loop.StateMachine
use claw_kernel.Loop.StopConditions.{StopCondition, any_stops}
use claw_kernel.Loop.Types.{
  ToolCall, Message, user_message, tool_result, TokenUsage, CompletionResponse, Options,
  AgentLoopConfig, FinishReason, stop, max_turns, token_budget, stop_condition, LoopState,
  new_loop_state, AgentResult, AgentError, provider, invalid_state_transition, LoopEvent,
  turn_started, llm_request, llm_response, tool_called, tool_result_seen, loop_completed,
}
use claw_kernel.Loop.Agent.{
  Agent, M, Services, append, apply_transition, complete_with, content_of, modify, publish,
  result_of, return, set_history_len, stop_at_guard, transition, u32, ◌>>=◌, ◌>>◌,
}
use claw_kernel.Loop.ToolCalls.{
  append_results, append_unavailable, execute_tools_parallel, find_call, publish_calls,
  publish_result, refuse_tools, run_call, run_tools,
}

module _ {W J : Type 0} (services : Services W J) (config : AgentLoopConfig)
    (stop_conditions : List StopCondition) (has_registry : Bool) where
  abbrev pub over_budget : LoopState → Bool
  over_budget s = ltb 0 config.token_budget && leb config.token_budget s.usage.total_tokens

  -- Steps 2 and 3; `none` goes on.
  unfoldable pub check_guards : M W (Option AgentResult)
  check_guards a =
      if any_stops stop_conditions a.loop_state
      then stop_at_guard stop_condition "stop_condition" a
      else if leb config.max_turns a.loop_state.turn
      then stop_at_guard max_turns "max_turns" a
      else if over_budget a.loop_state
      then stop_at_guard token_budget "token_budget" a
      else (ok none, a)

  abbrev pub retry_config : Retry.RetryConfig
  retry_config = record {
    max_retries = 3;
    base_delay = 1000;
    max_delay = 60000;
    retryable_statuses = 429 ∷ 500 ∷ 502 ∷ 503 ∷ 504 ∷ [];
  }

  abbrev pub options : Options
  options = record {
    model = services.model_id;
    max_tokens = 4096;
    system_prompt = config.system_prompt;
  }

  -- The result of the retried call, which there always is.
  unfoldable pub outcome :
      Option (Result ProviderError CompletionResponse) → Result ProviderError CompletionResponse
  outcome none = err (other "Retry exhausted")
  outcome (some r) = r

  unfoldable pub request : List Message → M W (Result ProviderError CompletionResponse)
  unfolding outcome
  request messages a =
      let r =
        Retry.with_retry (services.complete messages options) retry_config services.draw a.world in
      (ok (outcome r.result), record a { world = r.world })

  unfoldable pub answer_or_fail : Result ProviderError CompletionResponse → M W CompletionResponse
  answer_or_fail (ok response) = return response
  answer_or_fail (err e) = do transition fault; λ a. (err (provider (services.error_text e)), a)

  -- Step 4.
  unfoldable pub call_llm : M W CompletionResponse
  unfolding answer_or_fail
  call_llm = do
    modify (λ a. publish (llm_request services.provider_id services.model_id (length a.history)) a)
    messages ← λ a. (ok (a.history), a)
    transition llm_request_sent
    answer_or_fail (← request messages)

  -- Step 5: the sums are u64 and the turn u32, and wrap.
  unfoldable pub count_usage : CompletionResponse → Agent W → Agent W
  count_usage response a =
      let u = a.loop_state.usage in
      let v = response.usage in
      record a {
        loop_state = record (a.loop_state) {
          turn = (a.loop_state.turn + 1) % u32;
          usage = record {
            prompt_tokens = (u.prompt_tokens + v.prompt_tokens) % u64;
            completion_tokens = (u.completion_tokens + v.completion_tokens) % u64;
            total_tokens = (u.total_tokens + v.total_tokens) % u64;
          };
        };
      }

  -- A response after which the loop completes: through `Running` to `Completed`.
  unfoldable pub stop_after_response :
      FinishReason → String → CompletionResponse → M W (Option AgentResult)
  stop_after_response reason name response = do
    transition llm_response_received
    transition stop_condition_met
    complete_with reason name (some (response.message))

  -- The calls that a message asks for, if it asks for any.
  abbrev pub wanted_calls : Option (List ToolCall) → List ToolCall
  wanted_calls none = []
  wanted_calls (some calls) = calls

  abbrev pub handle_calls : List ToolCall → CompletionResponse → M W (Option AgentResult)
  handle_calls [] response = stop_after_response stop "stop" response
  handle_calls (c ∷ cs) response =
      if config.tool_use_enabled
      then (if has_registry
          then run_tools services config stop_conditions has_registry (c ∷ cs)
          else refuse_tools services config stop_conditions has_registry (c ∷ cs))
      else stop_after_response stop "stop" response

  unfoldable pub handle_response : CompletionResponse → M W (Option AgentResult)
  handle_response response a =
      if over_budget a.loop_state
      then stop_after_response token_budget "token_budget" response (append (response.message) a)
      else handle_calls (wanted_calls (response.message.tool_calls)) response (
          set_history_len (
            append (response.message)
              (publish (llm_response services.provider_id response.usage response.reason) a)))

  unfoldable pub answer_turn : M W (Option AgentResult)
  answer_turn = do response ← call_llm; modify (count_usage response); handle_response response

  unfoldable pub go_on : Option AgentResult → M W (Option AgentResult)
  go_on (some result) = return (some result)
  go_on none = answer_turn

  -- One round of the loop; `none` continues.
  unfoldable pub turn_round : M W (Option AgentResult)
  unfolding go_on
  turn_round = do modify (λ a. publish (turn_started (a.loop_state.turn)) a); go_on (← check_guards)

  -- The loop on fuel; `none` means that the fuel ran out.
  unfoldable pub run_loop : ℕ → Agent W → Option (Result AgentError AgentResult × Agent W)
  run_loop zero a = none
  run_loop (suc fuel) a =
      let (result, a') = turn_round a in
      elim result [
        | err e ↦ some (err e, a')
        | ok (some r) ↦ some (ok r, a')
        | ok none ↦ run_loop fuel a'
      ]

  -- `run`, given the fields of the agent; its local variables are set anew.
  unfoldable pub run : ℕ → String → Agent W → Option (Result AgentError AgentResult × Agent W)
  run fuel initial_message a =
      let fresh = record a {
        machine = StateMachine.new;
        loop_state = new_loop_state;
        tool_calls_accumulated = [];
      } in
      let (started, a') = transition start fresh in
      elim started [
        | err e ↦ some (err e, a')
        | ok _ ↦ run_loop fuel (append (user_message initial_message) a')
      ]
