-- ===== src/Loop/AgentLoop/ToolTurn.antt =====
-- The tool turns of crates/claw-loop/src/agent_loop.rs: where they leave the agent.
use claw_kernel.Prelude.{
  ◌≤◌, ◌≡◌, refl, ◌∙◌, List, [], ◌∷◌, ◌++◌, ap, ok, String, Option, none, some, Bool,
}
use claw_kernel.Loop.StateMachine.{AgentState, running, awaiting_llm, tool_executing}
use claw_kernel.Loop.StateMachine.Graph.{awaiting_tools, executing_done}
use claw_kernel.Loop.StopConditions.{StopCondition}
use claw_kernel.Loop.Types.{ToolCall, AgentLoopConfig}
use claw_kernel.Loop.Agent.{Services, Agent, set_history_len}
use claw_kernel.Loop.ToolCalls.{
  find_call, publish_result, append_results, publish_calls, append_unavailable, run_tools,
  refuse_tools, execute_tools_parallel,
}
use claw_kernel.Loop.AgentLoop.Steps.{core, At, moved, moved-At, moves}
use claw_kernel.Loop.AgentLoop.Turn.{Ended, goes_on}

module _ {W J : Type 0} (services : Services W J) (config : AgentLoopConfig)
    (stop_conditions : List StopCondition) (has_registry : Bool) where
  -- The steps that leave the core as it is.
  publish_result-core :
      (o : Option ToolCall) (id content : String) (a : Agent W)
      → core (publish_result services config stop_conditions has_registry o id content a) ≡ core a
  unfolding publish_result
  publish_result-core none id content a = refl
  publish_result-core (some c) id content a = refl

  append_results-core :
      (calls : List ToolCall) (rs : List (String × String)) (a : Agent W)
      → core (append_results services config stop_conditions has_registry calls rs a) ≡ core a
  unfolding append_results
  append_results-core calls [] a = refl
  append_results-core calls ((id, content) ∷ rs) a =
      append_results-core calls rs _
      ∙ publish_result-core (find_call services config stop_conditions has_registry id calls) id
          content a

  publish_calls-core :
      (calls : List ToolCall) (a : Agent W)
      → core (publish_calls services config stop_conditions has_registry calls a) ≡ core a
  unfolding publish_calls
  publish_calls-core [] a = refl
  publish_calls-core (c ∷ cs) a = publish_calls-core cs _

  pub append_unavailable-core :
      (calls : List ToolCall) (a : Agent W)
      → core (append_unavailable services config stop_conditions has_registry calls a) ≡ core a
  unfolding append_unavailable
  append_unavailable-core [] a = refl
  append_unavailable-core (c ∷ cs) a = append_unavailable-core cs _

  -- The agent with the tool calls of a message announced, and with their results.
  unfoldable pub announced : List ToolCall → Agent W → Agent W
  announced calls a =
      publish_calls services config stop_conditions has_registry calls
        (record a { tool_calls_accumulated = a.tool_calls_accumulated ++ calls })

  unfoldable pub answered : List ToolCall → Agent W → Agent W
  answered calls a =
      append_results services config stop_conditions has_registry calls
        (execute_tools_parallel services config stop_conditions has_registry a.world calls) a

  pub announced-core : (calls : List ToolCall) (a : Agent W) → core (announced calls a) ≡ core a
  unfolding announced
  announced-core calls a = publish_calls-core calls _

  pub answered-core : (calls : List ToolCall) (a : Agent W) → core (answered calls a) ≡ core a
  unfolding answered
  answered-core calls a = append_results-core calls _ a

  -- The agent after the tools of a message have run.
  unfoldable pub after_tools : List ToolCall → Agent W → Agent W
  after_tools calls a = set_history_len (answered calls (moved tool_executing (announced calls a)))

  between_tools :
      {base : List AgentState} (a : Agent W) (calls : List ToolCall)
      → At base awaiting_llm a
      → At base awaiting_llm (announced calls a)
        × At base tool_executing (answered calls (moved tool_executing (announced calls a)))
  between_tools {base} a calls h = (
    before,
    rw (answered-core calls (moved tool_executing (announced calls a)))
        (moved-At (announced calls a) before awaiting_tools),
  )
    where
      before : At base awaiting_llm (announced calls a)
      before = rw (announced-core calls a) h

  pub run_tools_moves :
      {base : List AgentState} (a : Agent W) (calls : List ToolCall)
      → At base awaiting_llm a
      → run_tools services config stop_conditions has_registry calls a
        ≡ (ok none, moved running (after_tools calls a))
  unfolding run_tools announced answered after_tools
  run_tools_moves a calls h =
      rw (moves (announced calls a) (between_tools a calls h).0 awaiting_tools)
        (rw (moves (after_tools calls a) (between_tools a calls h).1 executing_done))

  pub run_tools_goes_on :
      {base : List AgentState} (a : Agent W) (calls : List ToolCall)
      → At base awaiting_llm a
      → a.loop_state.turn ≤ config.max_turns
      → Ended services config stop_conditions has_registry base a.loop_state.turn
          (run_tools services config stop_conditions has_registry calls a)
  unfolding after_tools
  run_tools_goes_on a calls h b = rw (run_tools_moves a calls h) (
      goes_on (moved-At (after_tools calls a) (between_tools a calls h).1 executing_done)
        (ap (λ c. c.turn) (answered-core calls (moved tool_executing (announced calls a)))
          ∙ ap (λ c. c.turn) (announced-core calls a))
        b)

  -- The agent after the calls of a message have been refused.
  unfoldable pub refused : List ToolCall → Agent W → Agent W
  refused calls a = set_history_len (
      append_unavailable services config stop_conditions has_registry calls
        (moved tool_executing a))

  refused-At :
      {base : List AgentState} (a : Agent W) (calls : List ToolCall)
      → At base awaiting_llm a
      → At base tool_executing (refused calls a)
  unfolding refused
  refused-At a calls h =
      (rw (append_unavailable-core calls (moved tool_executing a)) (moved-At a h awaiting_tools))

  pub refuse_tools_moves :
      {base : List AgentState} (a : Agent W) (calls : List ToolCall)
      → At base awaiting_llm a
      → refuse_tools services config stop_conditions has_registry calls a
        ≡ (ok none, moved running (refused calls a))
  unfolding refuse_tools refused
  refuse_tools_moves a calls h =
      rw (moves a h awaiting_tools)
        (rw (moves (refused calls a) (refused-At a calls h) executing_done))

  pub refuse_tools_goes_on :
      {base : List AgentState} (a : Agent W) (calls : List ToolCall)
      → At base awaiting_llm a
      → a.loop_state.turn ≤ config.max_turns
      → Ended services config stop_conditions has_registry base a.loop_state.turn
          (refuse_tools services config stop_conditions has_registry calls a)
  unfolding refused
  refuse_tools_goes_on a calls h b = rw (refuse_tools_moves a calls h) (
      goes_on (moved-At (refused calls a) (refused-At a calls h) executing_done)
        (ap (λ c. c.turn) (append_unavailable-core calls (moved tool_executing a))) b)
