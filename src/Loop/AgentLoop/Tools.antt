-- ===== src/Loop/AgentLoop/Tools.antt =====
-- What a tool turn of crates/claw-loop/src/agent_loop.rs adds to the history.
use claw_kernel.Prelude.{
  ◌≡◌, refl, sym, ap, ◌∙◌, Bool, List, [], ◌∷◌, ◌++◌, map, take, length, String, ok, Result-cases,
  inl, inr, Option, none, some,
}
use mathlib.Core.List.{append-nil, append_assoc}
use claw_kernel.Loop.StateMachine.{AgentState, running, awaiting_llm, tool_executing}
use claw_kernel.Loop.StopConditions.{StopCondition}
use claw_kernel.Loop.Types.{ToolCall, Message, tool_result, AgentLoopConfig}
use claw_kernel.Loop.Agent.{Services, Agent}
use claw_kernel.Loop.ToolCalls.{
  find_call, publish_result, run_call, execute_tools_parallel, append_results, publish_calls,
  append_unavailable, run_tools, refuse_tools,
}
use claw_kernel.Loop.AgentLoop.Steps.{At, moved}
use claw_kernel.Loop.AgentLoop.ToolTurn.{
  announced, answered, after_tools, refused, run_tools_moves, refuse_tools_moves, announced-core,
  answered-core, append_unavailable-core,
}

-- What the tool turn reads and extends.
record Memory (W : Type 0) : Type 0 where
  messages : List Message
  now : W
  accumulated : List ToolCall

abbrev memory : {W : Type 0} → Agent W → Memory W
memory a = record { messages = a.history; now = a.world; accumulated = a.tool_calls_accumulated }

module _ {W J : Type 0} (services : Services W J) (config : AgentLoopConfig)
    (stop_conditions : List StopCondition) (has_registry : Bool) where
  publish_calls-memory :
      (calls : List ToolCall) (a : Agent W)
      → memory (publish_calls services config stop_conditions has_registry calls a) ≡ memory a
  unfolding publish_calls
  publish_calls-memory [] a = refl
  publish_calls-memory (c ∷ cs) a = publish_calls-memory cs _

  publish_result-memory :
      (o : Option ToolCall) (id content : String) (a : Agent W)
      → memory (publish_result services config stop_conditions has_registry o id content a)
        ≡ memory a
  unfolding publish_result
  publish_result-memory none id content a = refl
  publish_result-memory (some c) id content a = refl

  -- Messages after others.
  abbrev extend : List Message → Memory W → Memory W
  extend ms m = record m { messages = m.messages ++ ms }

  extend_twice :
      (m : Message) (ms : List Message) (r : Memory W)
      → extend ms (extend (m ∷ []) r) ≡ extend (m ∷ ms) r
  extend_twice m ms r = ap (λ l. record r { messages = l }) (append_assoc r.messages (m ∷ []) ms)

  append_results-memory :
      (calls : List ToolCall) (rs : List (String × String)) (a : Agent W)
      → memory (append_results services config stop_conditions has_registry calls rs a)
        ≡ extend (map (λ r. tool_result r.0 r.1) rs) (memory a)
  unfolding append_results
  append_results-memory calls [] a =
      ap (λ l. record (memory a) { messages = l }) (sym (append-nil a.history))
  append_results-memory calls ((id, content) ∷ rs) a =
      append_results-memory calls rs _
      ∙ extend_twice (tool_result id content) (map (λ r. tool_result r.0 r.1) rs) _
      ∙ ap (extend (map (λ r. tool_result r.0 r.1) ((id, content) ∷ rs))) (
          publish_result-memory (find_call services config stop_conditions has_registry id calls) id
            content a)

  append_unavailable-memory :
      (calls : List ToolCall) (a : Agent W)
      → memory (append_unavailable services config stop_conditions has_registry calls a)
        ≡ extend (map (λ c. tool_result c.id services.no_registry_json) calls) (memory a)
  unfolding append_unavailable
  append_unavailable-memory [] a =
      ap (λ l. record (memory a) { messages = l }) (sym (append-nil a.history))
  append_unavailable-memory (c ∷ cs) a =
      append_unavailable-memory cs _
      ∙ extend_twice (tool_result c.id services.no_registry_json)
          (map (λ c. tool_result c.id services.no_registry_json) cs) (memory a)

  -- The answer to a call: the output of its tool, or the error as JSON.
  abbrev pub answer : W → ToolCall → Message
  answer w call =
      tool_result call.id (run_call services config stop_conditions has_registry w call).1

  run_call_keeps_id :
      (w : W) (c : ToolCall) → (run_call services config stop_conditions has_registry w c).0 ≡ c.id
  unfolding run_call
  run_call_keeps_id w c = elim (Result-cases (services.parse_args c.arguments)) [
    | inr (e, bad) ↦ rw (bad, run_call)
    | inl (args, good) ↦
        rw (good, run_call)
          (elim (Result-cases (services.execute w c.name args)) [
            | inl (output, done) ↦ rw (done, run_call)
            | inr (e, failed) ↦ rw (failed, run_call)
          ])
  ]

  results_are_answers :
      (w : W) (calls : List ToolCall)
      → map
          (λ r. tool_result r.0 r.1)
          (map (run_call services config stop_conditions has_registry w) calls)
        ≡ map (answer w) calls
  results_are_answers w [] = refl
  results_are_answers w (c ∷ cs) =
      ap
        (λ id.
          tool_result id (run_call services config stop_conditions has_registry w c).1
          ∷ map (λ r. tool_result r.0 r.1)
              (map (run_call services config stop_conditions has_registry w) cs))
        (run_call_keeps_id w c)
      ∙ ap (◌∷◌ (answer w c)) (results_are_answers w cs)

  abbrev with_answers : List ToolCall → Memory W → Memory W
  with_answers calls m = extend (map (answer m.now) (take config.max_tool_calls_per_turn calls)) m

  answered-memory :
      (calls : List ToolCall) (a : Agent W)
      → memory (answered services config stop_conditions has_registry calls a)
        ≡ with_answers calls (memory a)
  unfolding answered execute_tools_parallel
  answered-memory calls a =
      append_results-memory calls _ a
      ∙ ap (λ ms. extend ms (memory a))
          (results_are_answers a.world (take config.max_tool_calls_per_turn calls))

  tools-memory :
      (calls : List ToolCall) (a : Agent W)
      → memory (
          answered services config stop_conditions has_registry calls
            (moved tool_executing (announced services config stop_conditions has_registry calls a)))
        ≡ with_answers calls (record (memory a) { accumulated = a.tool_calls_accumulated ++ calls })
  unfolding announced
  tools-memory calls a =
      answered-memory calls
        (moved tool_executing (announced services config stop_conditions has_registry calls a))
      ∙ ap (with_answers calls) (
          publish_calls-memory calls
            (record a { tool_calls_accumulated = a.tool_calls_accumulated ++ calls }))

  tools-broadcasts :
      (calls : List ToolCall) (a : Agent W)
      → (answered services config stop_conditions has_registry calls (
          moved tool_executing
            (announced services config stop_conditions has_registry calls a))).broadcasts
        ≡ tool_executing ∷ a.broadcasts
  tools-broadcasts calls a =
      ap (λ c. c.broadcasts)
        (answered-core services config stop_conditions has_registry calls
          (moved tool_executing (announced services config stop_conditions has_registry calls a)))
      ∙ ap (λ c. tool_executing ∷ c.broadcasts)
          (announced-core services config stop_conditions has_registry calls a)

  -- A tool turn with a registry, from a state in which an answer is awaited, continues the loop. It
  -- appends exactly one tool result to the history for each of the first
  -- `max_tool_calls_per_turn` calls, in the order of the calls and under the call's id, and none
  -- for a later call, adds all the calls to the accumulated ones, records the history's length,
  -- and broadcasts `tool_executing` and then `running`.
  pub run_tools_answers :
      {base : List AgentState} (a : Agent W) (calls : List ToolCall)
      → At base awaiting_llm a
      → (a' : Agent W) × (run_tools services config stop_conditions has_registry calls a
          ≡ (ok none, a'))
        × (a'.history
            ≡ a.history ++ map (answer a.world) (take config.max_tool_calls_per_turn calls))
        × (a'.tool_calls_accumulated ≡ a.tool_calls_accumulated ++ calls)
        × (a'.loop_state.history_len ≡ length a'.history)
        × (a'.broadcasts ≡ running ∷ tool_executing ∷ a.broadcasts)
  unfolding after_tools
  run_tools_answers a calls h = (
    _,
    run_tools_moves services config stop_conditions has_registry a calls h,
    ap (λ m. m.messages) (tools-memory calls a),
    ap (λ m. m.accumulated) (tools-memory calls a),
    refl,
    ap (◌∷◌ running) (tools-broadcasts calls a),
  )

  -- A tool turn without a registry, from a state in which an answer is awaited, continues the loop.
  -- It appends the message that no tool is available to the history for every call, in order and
  -- under the call's id, accumulates no call, records the history's length, and broadcasts
  -- `tool_executing` and then `running`.
  pub refuse_tools_answers :
      {base : List AgentState} (a : Agent W) (calls : List ToolCall)
      → At base awaiting_llm a
      → (a' : Agent W) × (refuse_tools services config stop_conditions has_registry calls a
          ≡ (ok none, a'))
        × (a'.history ≡ a.history ++ map (λ c. tool_result c.id services.no_registry_json) calls)
        × (a'.tool_calls_accumulated ≡ a.tool_calls_accumulated)
        × (a'.loop_state.history_len ≡ length a'.history)
        × (a'.broadcasts ≡ running ∷ tool_executing ∷ a.broadcasts)
  unfolding refused
  refuse_tools_answers a calls h = (
    _,
    refuse_tools_moves services config stop_conditions has_registry a calls h,
    ap (λ m. m.messages) (append_unavailable-memory calls (moved tool_executing a)),
    ap (λ m. m.accumulated) (append_unavailable-memory calls (moved tool_executing a)),
    refl,
    ap (λ c. running ∷ c.broadcasts)
        (append_unavailable-core services config stop_conditions has_registry calls
          (moved tool_executing a)),
  )
