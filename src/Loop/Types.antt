-- ===== src/Loop/Types.antt =====
-- The values of the agent loop: crates/claw-provider/src/types.rs, crates/claw-loop/src/types.rs and
-- crates/claw-loop/src/error.rs. The wall-clock time of a result is left out.
use claw_kernel.Prelude.{ℕ, Bool, true, Option, none, some, List, String}
use claw_kernel.Loop.StateMachine.{AgentState, StateEvent}

pub data Role : Type 0 where
  user assistant system tool : Role

pub record ToolCall : Type 0 where
  pub id : String
  pub name : String
  pub arguments : String

pub record Message : Type 0 where
  pub role : Role
  pub content : String
  pub tool_calls : Option (List ToolCall)
  pub tool_call_id : Option String

abbrev pub user_message : String → Message
user_message content = record {
  role = user;
  content = content;
  tool_calls = none;
  tool_call_id = none;
}

abbrev pub tool_result : String → String → Message
tool_result tool_call_id content = record {
  role = tool;
  content = content;
  tool_calls = none;
  tool_call_id = some tool_call_id;
}

-- Three u64.
pub record TokenUsage : Type 0 where
  pub prompt_tokens : ℕ
  pub completion_tokens : ℕ
  pub total_tokens : ℕ

-- The reason is the provider's, in its debug form.
pub record CompletionResponse : Type 0 where
  pub message : Message
  pub reason : String
  pub usage : TokenUsage

-- The options that the loop sets; the others keep their defaults.
pub record Options : Type 0 where
  pub model : String
  pub max_tokens : ℕ
  pub system_prompt : Option String

pub record AgentLoopConfig : Type 0 where
  pub max_turns : ℕ  -- u32
  pub token_budget : ℕ  -- u64
  pub system_prompt : Option String
  pub tool_use_enabled : Bool
  pub max_tool_calls_per_turn : ℕ

-- `AgentLoopConfig::default()`.
abbrev pub default_loop_config : AgentLoopConfig
default_loop_config = record {
  max_turns = 20;
  token_budget = 0;
  system_prompt = none;
  tool_use_enabled = true;
  max_tool_calls_per_turn = 10;
}

pub data FinishReason : Type 0 where
  stop max_turns token_budget no_tool_call stop_condition failed : FinishReason

pub record LoopState : Type 0 where
  pub turn : ℕ  -- u32
  pub usage : TokenUsage
  pub history_len : ℕ

-- `LoopState::new()`.
abbrev pub new_loop_state : LoopState
new_loop_state = record {
  turn = 0;
  usage = record { prompt_tokens = 0; completion_tokens = 0; total_tokens = 0 };
  history_len = 0;
}

pub record AgentResult : Type 0 where
  pub finish_reason : FinishReason
  pub last_message : Option Message
  pub usage : TokenUsage
  pub turns : ℕ
  pub content : String
  pub tool_calls : List ToolCall

pub data AgentError : Type 0 where
  provider : String → AgentError
  tool_error : String → AgentError
  max_turns_reached : ℕ → AgentError
  token_budget_exceeded : ℕ → ℕ → AgentError
  stopped_by : String → AgentError
  context : String → AgentError
  serialization : String → AgentError
  invalid_state_transition : AgentState → StateEvent → List StateEvent → AgentError
  state_mismatch : AgentState → AgentState → AgentError

-- The calls of the event publisher.
pub data LoopEvent : Type 0 where
  turn_started : ℕ → LoopEvent
  llm_request : String → String → ℕ → LoopEvent
  llm_response : String → TokenUsage → String → LoopEvent
  tool_called : String → String → LoopEvent
  tool_result_seen : String → String → Bool → LoopEvent
  loop_completed : String → ℕ → LoopEvent
