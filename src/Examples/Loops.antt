-- ===== src/Examples/Loops.antt =====
-- A run of the agent loop with one tool turn, at concrete services.
use claw_kernel.Prelude.{
  ℕ, zero, suc, ◌≡◌, refl, true, false, Option, none, some, List, [], ◌∷◌, ◌++◌, map, take, length,
  String, str_eq, if◌then◌else◌, Result, ok, err, arith,
}
use claw_kernel.Retry.{retry_loop}
use claw_kernel.Provider.{ProviderError}
use claw_kernel.Provider.Retry
use claw_kernel.Loop.StateMachine.{
  AgentState, idle, running, awaiting_llm, tool_executing, completed, start, llm_request_sent,
  StateMachine,
}
use claw_kernel.Loop.StateMachine
use claw_kernel.Loop.Types.{
  Message, assistant, ToolCall, tool_result, CompletionResponse, default_loop_config,
  new_loop_state, FinishReason, stop, AgentResult, AgentError,
}
use claw_kernel.Loop.StopConditions.{any_stops}
use claw_kernel.Loop.Agent.{Services, Agent, transition, apply_transition}
use claw_kernel.Loop.ToolCalls.{
  run_call, execute_tools_parallel, find_call, publish_result, append_results, publish_calls,
  run_tools, refuse_tools,
}
use claw_kernel.Loop.AgentLoop.{
  check_guards, outcome, request, answer_or_fail, call_llm, count_usage, stop_after_response,
  handle_response, answer_turn, go_on, turn_round, run_loop, run,
}
use claw_kernel.Loop.AgentLoop.Steps.{At, begin, walk}
use claw_kernel.Loop.StateMachine.Graph.{idle_start, running_request}
use claw_kernel.Loop.AgentLoop.Run.{Returns, run_ends}
use claw_kernel.Loop.AgentLoop.Tools.{answer, run_tools_answers, refuse_tools_answers}

abbrev two_calls : List ToolCall
two_calls =
    record { id = "c1"; name = "read"; arguments = "{}" }
    ∷ record { id = "c2"; name = "rm"; arguments = "{" }
    ∷ []

abbrev reply : Option (List ToolCall) → String → CompletionResponse
reply calls text = record {
  message = record { role = assistant; content = text; tool_calls = calls; tool_call_id = none };
  reason = "Stop";
  usage = record { prompt_tokens = 10; completion_tokens = 5; total_tokens = 15 };
}

-- The first answer asks for tools, the second ends the talk; the world counts the answers.
talk : List Message → ℕ → Result ProviderError CompletionResponse × ℕ
talk messages zero = (ok (reply (some two_calls) "let me look"), 1)
talk messages (suc n) = (ok (reply none "done"), suc (suc n))

parse : String → Result String String
parse text = if str_eq text "{}" then ok text else err "eof"

abbrev two_turns : Services ℕ String
two_turns = record {
  provider_id = "p";
  model_id = "m";
  complete = λ messages options. talk messages;
  error_text = λ e. "failed";
  parse_args = parse;
  execute = λ w name args. ok "found";
  print_output = λ o. o;
  parse_failed_json = λ id e. "bad arguments";
  error_json = λ e. e;
  no_registry_json = "no tools";
  mentions_error = λ s. false;
  draw = λ attempt bound. 0;
}

abbrev new_agent : Agent ℕ
new_agent = record {
  history = [];
  state = idle;
  broadcasts = [];
  events = [];
  world = 0;
  machine = StateMachine.new;
  loop_state = new_loop_state;
  tool_calls_accumulated = [];
}

abbrev summary :
    Option (Result AgentError AgentResult × Agent ℕ) → Option (FinishReason × ℕ × String)
summary none = none
summary (some (err e, a)) = none
summary (some (ok r, a)) = some (r.finish_reason, r.turns, r.content)

two_turns_stop :
    summary (run two_turns default_loop_config [] true 3 "hi" new_agent) ≡ some (stop, 2, "done")
unfolding run run_loop turn_round go_on check_guards any_stops answer_turn call_llm request outcome
    answer_or_fail count_usage handle_response stop_after_response run_tools publish_calls
    append_results find_call publish_result execute_tools_parallel run_call transition
    apply_transition StateMachine.new StateMachine.transition talk parse Retry.with_retry retry_loop
two_turns_stop = refl

run_ends_example :
    Returns two_turns default_loop_config [] true []
      (run two_turns default_loop_config [] true 21 "hi" new_agent)
run_ends_example =
    run_ends two_turns default_loop_config [] true 21 "hi" new_agent (omega arith) (omega arith)

-- An agent that awaits an answer.
asked : Agent ℕ
asked = (transition llm_request_sent (transition start new_agent).1).1

asked-At : At [] awaiting_llm asked
unfolding asked transition apply_transition StateMachine.new StateMachine.transition
asked-At = record {
  table = record { same_transitions = refl; same_allowed = refl };
  current = refl;
  shared = refl;
  trace = walk (walk begin idle_start) running_request;
}

run_tools_answers_example :
    (a' : Agent ℕ) × (run_tools two_turns default_loop_config [] true two_calls asked
      ≡ (ok none, a'))
    × (a'.history
        ≡ asked.history
          ++ map (answer two_turns default_loop_config [] true asked.world) (take 10 two_calls))
    × (a'.tool_calls_accumulated ≡ asked.tool_calls_accumulated ++ two_calls)
    × (a'.loop_state.history_len ≡ length a'.history)
    × (a'.broadcasts ≡ running ∷ tool_executing ∷ asked.broadcasts)
run_tools_answers_example =
    run_tools_answers two_turns default_loop_config [] true asked two_calls asked-At

refuse_tools_answers_example :
    (a' : Agent ℕ) × (refuse_tools two_turns default_loop_config [] false two_calls asked
      ≡ (ok none, a'))
    × (a'.history ≡ asked.history ++ map (λ c. tool_result c.id "no tools") two_calls)
    × (a'.tool_calls_accumulated ≡ asked.tool_calls_accumulated)
    × (a'.loop_state.history_len ≡ length a'.history)
    × (a'.broadcasts ≡ running ∷ tool_executing ∷ asked.broadcasts)
refuse_tools_answers_example =
    refuse_tools_answers two_turns default_loop_config [] false asked two_calls asked-At
