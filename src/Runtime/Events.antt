-- ===== src/Runtime/Events.antt =====
-- crates/claw-runtime/src/events.rs and crates/claw-runtime/src/trigger_event.rs: the events of the
-- bus. A JSON value is of type `J`, an agent's message of type `M`, an extension's event of type `X`.
use claw_kernel.Prelude.{ℕ, Bool, Option, String}

pub data TriggerType : Type 0 where
  cron webhook event : TriggerType

pub record TriggerEvent (J : Type 0) : Type 0 where
  pub id : String
  pub trigger_id : String
  pub trigger_type : TriggerType
  pub fired_at : ℕ
  pub payload : J
  pub target_agent : Option String

abbrev pub new_trigger :
    {J : Type 0} (id : String) (now : ℕ) → String → TriggerType → J → Option String → TriggerEvent J
new_trigger id now trigger_id trigger_type payload target_agent = record {
  id = id;
  trigger_id = trigger_id;
  trigger_type = trigger_type;
  fired_at = now;
  payload = payload;
  target_agent = target_agent;
}

-- `TriggerEvent::event`.
abbrev pub event_trigger :
    {J : Type 0} (id : String) (now : ℕ) → String → J → Option String → TriggerEvent J
event_trigger id now trigger_id payload target_agent =
    new_trigger id now trigger_id event payload target_agent

pub data Event (J M X : Type 0) : Type 0 where
  agent_started : (agent_id : String) → Event J M X
  agent_stopped : (agent_id reason : String) → Event J M X
  llm_request_started : (agent_id provider : String) → Event J M X
  llm_request_completed : (agent_id : String) (prompt_tokens completion_tokens : ℕ) → Event J M X
  message_received : (agent_id channel message_type : String) → Event J M X
  a2a : M → Event J M X
  tool_called : (agent_id tool_name call_id : String) → Event J M X
  tool_result : (agent_id tool_name call_id : String) (success : Bool) → Event J M X
  context_window_approaching_limit : (agent_id : String) (token_count token_limit : ℕ) → Event J M X
  memory_archive_complete : (agent_id : String) (archived_count : ℕ) → Event J M X
  mode_changed : (agent_id : String) (to_power_mode : Bool) → Event J M X
  extension : X → Event J M X
  agent_restarted : (agent_id : String) (attempt delay_ms : ℕ) → Event J M X
  agent_failed : (agent_id : String) (attempts : ℕ) (reason : String) → Event J M X
  shutdown : Event J M X
  trigger_fired : TriggerEvent J → Event J M X
  custom : (event_type : String) (content : J) → Event J M X
