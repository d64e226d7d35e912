-- ===== src/Loop/AgentLoop/Turn.antt =====
-- How a round of the loop of crates/claw-loop/src/agent_loop.rs ends.
use claw_kernel.Prelude.{
  ℕ, ◌≤◌, ◌≡◌, refl, sym, ap, ◌⊎◌, false, List, [], ◌∷◌, Result, ok, err, String, Option, none,
  some, Bool, true,
}
use claw_kernel.Loop.StateMachine.{AgentState, running, awaiting_llm, completed, error}
use claw_kernel.Loop.StateMachine.Graph.{running_stop, awaiting_response}
use claw_kernel.Loop.StopConditions.{StopCondition, any_stops}
use claw_kernel.Loop.Types.{
  LoopState, LoopEvent, Message, TokenUsage, llm_response, loop_completed, CompletionResponse,
  AgentLoopConfig, AgentError, provider, AgentResult, FinishReason, stop, max_turns, token_budget,
  no_tool_call, stop_condition, failed,
}
use claw_kernel.Loop.Agent.{Services, Agent, content_of, complete_with, stop_at_guard}
use claw_kernel.Loop.AgentLoop.{last?, over_budget, wanted_calls, stop_after_response}
use claw_kernel.Loop.AgentLoop.Steps.{At, moved, moved-At, moves}

module _ {W J : Type 0} (services : Services W J) (config : AgentLoopConfig)
    (stop_conditions : List StopCondition) (has_registry : Bool) where
  -- The last message of the history is one that ends the loop: it asks for no tool, or tools are
  -- turned off.
  abbrev pub AsksNothing : Option Message → Type 0
  AsksNothing none = ⊥
  AsksNothing (some m) =
      (wanted_calls services config stop_conditions has_registry m.tool_calls ≡ [])
      ⊎ (config.tool_use_enabled ≡ false)

  -- The model has just answered.
  abbrev pub JustAnswered : List LoopEvent → Type 0
  JustAnswered events =
      (usage : TokenUsage) × (reason : String) × (earlier : List LoopEvent) × (events
        ≡ llm_response services.provider_id usage reason ∷ earlier)

  -- What the reason of a result says of the loop's state, of the history and of the events before
  -- the completion.
  abbrev pub Justified : FinishReason → LoopState → List Message → List LoopEvent → Type 0
  Justified stop s history events =
      (over_budget services config stop_conditions has_registry s ≡ false)
      × AsksNothing (last? history)
      × JustAnswered events
  Justified max_turns s history events =
      (any_stops stop_conditions s ≡ false) × (config.max_turns ≤ s.turn)
  Justified token_budget s history events =
      over_budget services config stop_conditions has_registry s ≡ true
  Justified stop_condition s history events = any_stops stop_conditions s ≡ true
  Justified no_tool_call s history events = ⊥
  Justified failed s history events = ⊥

  -- The name under which a reason is published.
  abbrev pub reason_name : FinishReason → String
  reason_name stop = "stop"
  reason_name max_turns = "max_turns"
  reason_name token_budget = "token_budget"
  reason_name stop_condition = "stop_condition"
  reason_name no_tool_call = "no_tool_call"
  reason_name failed = "error"

  -- A result, and the agent that the run leaves with it.
  pub record Completes (base : List AgentState) (r : AgentResult) (a : Agent W) : Type 0 where
    pub at_end : At base completed a
    pub turns_counted : r.turns ≡ a.loop_state.turn
    pub usage_counted : r.usage ≡ a.loop_state.usage
    pub calls_kept : r.tool_calls ≡ a.tool_calls_accumulated
    pub turns_within : r.turns ≤ config.max_turns
    pub last_kept : r.last_message ≡ last? a.history
    pub content_kept : r.content ≡ content_of (last? a.history)
    pub completion_published :
        (events : List LoopEvent) × (a.events
          ≡ loop_completed (reason_name r.finish_reason) r.turns ∷ events)
        × Justified r.finish_reason a.loop_state a.history events

  -- How a round ends after which `k` turns are counted: it goes on, completes or has failed.
  pub data Ended (base : List AgentState) (k : ℕ)
      : Result AgentError (Option AgentResult) × Agent W → Type 0 where
    goes_on :
        {a : Agent W}
        → At base running a
        → a.loop_state.turn ≡ k
        → k ≤ config.max_turns
        → Ended base k (ok none, a)
    completes : {r : AgentResult} {a : Agent W} → Completes base r a → Ended base k (ok (some r), a)
    fails : {a : Agent W} {text : String} → At base error a → Ended base k (err (provider text), a)

  pub guard_completes :
      {base : List AgentState} {a : Agent W} (reason : FinishReason) (name : String)
      → At base running a
      → stop_at_guard reason name a
        ≡ complete_with reason name (last? a.history) (moved completed a)
  unfolding stop_at_guard
  guard_completes {a = a} reason name h = rw (moves a h running_stop)

  response_completes :
      {base : List AgentState} {a : Agent W} (reason : FinishReason) (name : String)
      (response : CompletionResponse)
      → At base awaiting_llm a
      → stop_after_response services config stop_conditions has_registry reason name response a
        ≡ complete_with reason name (some (response.message)) (moved completed (moved running a))
  unfolding stop_after_response
  response_completes {a = a} reason name response h =
      rw (moves a h awaiting_response)
        (rw (moves (moved running a) (moved-At a h awaiting_response) running_stop))

  pub completes_after_response :
      {base : List AgentState} (a : Agent W) {k : ℕ} (reason : FinishReason)
      (response : CompletionResponse)
      → At base awaiting_llm a
      → a.loop_state.turn ≤ config.max_turns
      → last? a.history ≡ some (response.message)
      → Justified reason a.loop_state a.history a.events
      → Ended base k (
          stop_after_response services config stop_conditions has_registry reason
            (reason_name reason)
            response
            a)
  completes_after_response a reason response h b lst j =
      rw (response_completes {a = a} reason (reason_name reason) response h) (
        completes (record {
          at_end = moved-At (moved running a) (moved-At a h awaiting_response) running_stop;
          turns_counted = refl;
          usage_counted = refl;
          calls_kept = refl;
          turns_within = b;
          last_kept = sym lst;
          content_kept = ap content_of (sym lst);
          completion_published = (_, refl, j);
        }))
