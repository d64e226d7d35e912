-- ===== src/Loop/Agent.antt =====
-- crates/claw-loop/src/agent_loop.rs: the fields of `AgentLoop`, its state transition, and the steps
-- that end a run. The provider, the tool registry and the JSON library are the operations of
-- `Services`; `W` is the state of the provider, which a completion changes. The history is the list
-- of its messages. Lists of broadcasts and of events are newest first.
use claw_kernel.Prelude.{
  ℕ, Bool, Option, none, some, List, [], ◌∷◌, ◌++◌, String, length, last?, Result, ok, err,
}
use claw_kernel.Provider.{ProviderError}
use claw_kernel.Loop.StateMachine.{
  AgentState, idle, StateEvent, start, llm_request_sent, llm_response_received, tools_required,
  tools_completed, stop_condition_met, fault, StateMachine, TransitionResult, success, invalid,
}
use claw_kernel.Loop.StateMachine
use claw_kernel.Loop.Types.{
  ToolCall, Message, CompletionResponse, Options, FinishReason, LoopState, AgentResult, AgentError,
  invalid_state_transition, LoopEvent, loop_completed,
}

abbrev pub u32 : ℕ
u32 = 4294967296

pub record Services (W J : Type 0) : Type 0 where
  pub provider_id : String
  pub model_id : String
  pub complete : List Message → Options → W → Result ProviderError CompletionResponse × W
  pub error_text : ProviderError → String
  pub parse_args : String → Result String J
  pub execute : W → String → J → Result String J
  pub print_output : J → String
  pub parse_failed_json : String → String → String
  pub error_json : String → String
  pub no_registry_json : String
  pub mentions_error : String → Bool  -- `contains("\"error\"")`
  pub draw : ℕ → ℕ → ℕ

-- The fields of `AgentLoop` that a run changes, and the local variables of `run`.
pub record Agent (W : Type 0) : Type 0 where
  pub history : List Message
  pub state : AgentState
  pub broadcasts : List AgentState
  pub events : List LoopEvent
  pub world : W
  pub machine : StateMachine
  pub loop_state : LoopState
  pub tool_calls_accumulated : List ToolCall

-- An asynchronous method: it may fail, and the agent is as it left it.
abbrev pub M : Type 0 → Type 0 → Type 0
M W A = Agent W → Result AgentError A × Agent W

infixl 5 ◌>>=◌ ◌>>◌
abbrev pub ◌>>=◌ : {W A B : Type 0} → M W A → (A → M W B) → M W B
◌>>=◌ m f a = elim (m a).0 [ ok x ↦ f x (m a).1 | err e ↦ (err e, (m a).1) ]

abbrev pub ◌>>◌ : {W B : Type 0} → M W (Unit {0}) → M W B → M W B
m >> k = m >>= λ _. k

abbrev pub return : {W A : Type 0} → A → M W A
return x a = (ok x, a)

-- A change of the agent that cannot fail.
abbrev pub modify : {W : Type 0} → (Agent W → Agent W) → M W (Unit {0})
modify f a = (ok tt, f a)

abbrev pub publish : {W : Type 0} → LoopEvent → Agent W → Agent W
publish e a = record a { events = e ∷ a.events }

abbrev pub append : {W : Type 0} → Message → Agent W → Agent W
append m a = record a { history = a.history ++ m ∷ [] }

abbrev pub set_history_len : {W : Type 0} → Agent W → Agent W
set_history_len a = record a {
  loop_state = record (a.loop_state) { history_len = length a.history };
}

unfoldable pub apply_transition :
    {W : Type 0}
    → Agent W
    → StateMachine
    → TransitionResult
    → Result AgentError (Unit {0}) × Agent W
apply_transition a m (success new_state) =
    (ok tt, record a { machine = m; state = new_state; broadcasts = new_state ∷ a.broadcasts })
apply_transition a m (invalid from event allowed) =
    (err (invalid_state_transition from event allowed), a)

-- Updates the machine, the shared state and the subscribers.
unfoldable pub transition : {W : Type 0} → StateEvent → M W (Unit {0})
unfolding apply_transition
transition event a =
    let (m, result, calls) = StateMachine.transition a.machine event in apply_transition a m result

-- The content of the last message, or nothing.
abbrev pub content_of : Option Message → String
content_of none = ""
content_of (some m) = m.content

abbrev pub result_of : {W : Type 0} → FinishReason → Option Message → Agent W → AgentResult
result_of reason last_message a = record {
  finish_reason = reason;
  last_message = last_message;
  usage = a.loop_state.usage;
  turns = a.loop_state.turn;
  content = content_of last_message;
  tool_calls = a.tool_calls_accumulated;
}

-- `publish_loop_completed` and `return Ok(result)`.
abbrev pub complete_with :
    {W : Type 0} → FinishReason → String → Option Message → M W (Option AgentResult)
complete_with reason name last_message a =
    let result = result_of reason last_message a in
    (ok (some result), publish (loop_completed name result.turns) a)

-- A guard at the head of a turn that holds.
unfoldable pub stop_at_guard : {W : Type 0} → FinishReason → String → M W (Option AgentResult)
stop_at_guard reason name = do
  transition stop_condition_met
  λ a. complete_with reason name (last? a.history) a
