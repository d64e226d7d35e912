-- ===== src/Loop/ToolCalls.antt =====
-- crates/claw-loop/src/agent_loop.rs: the tool calls of a turn, step 6 of `AgentLoop::run` and
-- `execute_tools_parallel`.
use claw_kernel.Prelude.{
  Bool, not, Option, none, some, List, [], ◌∷◌, ◌++◌, map, String, if◌then◌else◌, str_eq, take, ok,
  err,
}
use claw_kernel.Loop.StateMachine.{tools_required, tools_completed}
use claw_kernel.Loop.StopConditions.{StopCondition}
use claw_kernel.Loop.Types.{
  ToolCall, tool_result, AgentLoopConfig, AgentResult, tool_called, tool_result_seen,
}
use claw_kernel.Loop.Agent.{
  Agent, M, Services, append, modify, publish, return, set_history_len, transition, ◌>>◌,
}

module _ {W J : Type 0} (services : Services W J) (config : AgentLoopConfig)
    (stop_conditions : List StopCondition) (has_registry : Bool) where
  unfoldable pub run_call : W → ToolCall → String × String
  run_call w call = elim (services.parse_args call.arguments) [
    | err e ↦ (call.id, services.parse_failed_json call.id e)
    | ok args ↦ elim (services.execute w call.name args) [
      | ok output ↦ (call.id, services.print_output output)
      | err e ↦ (call.id, services.error_json e)
    ]
  ]

  -- The calls run in parallel, and `join_all` keeps their order.
  unfoldable pub execute_tools_parallel : W → List ToolCall → List (String × String)
  unfolding run_call
  execute_tools_parallel w calls = map (run_call w) (take config.max_tool_calls_per_turn calls)

  unfoldable pub find_call : String → List ToolCall → Option ToolCall
  find_call id [] = none
  find_call id (c ∷ cs) = let rest = find_call id cs in if str_eq c.id id then some c else rest

  unfoldable pub publish_result : Option ToolCall → String → String → Agent W → Agent W
  publish_result none id content a = a
  publish_result (some call) id content a =
      publish (tool_result_seen call.name id (not (services.mentions_error content))) a

  unfoldable pub append_results : List ToolCall → List (String × String) → Agent W → Agent W
  unfolding find_call publish_result
  append_results calls [] a = a
  append_results calls ((id, content) ∷ rest) a =
      append_results calls rest
        (append (tool_result id content) (publish_result (find_call id calls) id content a))

  unfoldable pub publish_calls : List ToolCall → Agent W → Agent W
  publish_calls [] a = a
  publish_calls (c ∷ cs) a = publish_calls cs (publish (tool_called c.name c.id) a)

  unfoldable pub append_unavailable : List ToolCall → Agent W → Agent W
  append_unavailable [] a = a
  append_unavailable (c ∷ cs) a =
      append_unavailable cs (append (tool_result c.id services.no_registry_json) a)

  -- Step 6 with a registry.
  unfoldable pub run_tools : List ToolCall → M W (Option AgentResult)
  run_tools calls = do
    modify (λ a. record a { tool_calls_accumulated = a.tool_calls_accumulated ++ calls })
    modify (publish_calls calls)
    transition tools_required
    modify (λ a. append_results calls (execute_tools_parallel a.world calls) a)
    modify set_history_len
    transition tools_completed
    return none

  -- Step 6 without a registry.
  unfoldable pub refuse_tools : List ToolCall → M W (Option AgentResult)
  refuse_tools calls = do
    transition tools_required
    modify (append_unavailable calls)
    modify set_history_len
    transition tools_completed
    return none
