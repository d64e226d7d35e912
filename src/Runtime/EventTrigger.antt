-- ===== src/Runtime/EventTrigger.antt =====
-- crates/claw-runtime/src/event_trigger.rs: rules that fire a trigger when an event matches. The JSON
-- library is a parameter; the table of rules is given as the list that its iteration gives.
pub mod Firing
pub mod Feedback
use claw_kernel.Prelude.{
  ℕ, zero, suc, Bool, true, false, not, ◌&&◌, Option, none, some, List, [], ◌∷◌, ◌++◌, String,
  if◌then◌else◌, str_eq, is_some, ltb, length,
}
use Prim.Native.String.{len}
use text.Mathlib.Text.{starts_with, get?}
use claw_kernel.Prelude.KeyedMap.{KeyedMap}
use claw_kernel.Prelude.Membership.{all}
use claw_kernel.Runtime.Events.{
  event_trigger, Event, agent_started, agent_stopped, llm_request_started, llm_request_completed,
  message_received, a2a, tool_called, tool_result, context_window_approaching_limit,
  memory_archive_complete, mode_changed, extension, agent_restarted, agent_failed, shutdown,
  trigger_fired, custom,
}

pub record EventTriggerRule (J : Type 0) : Type 0 where
  pub trigger_id : String
  pub watch_event : String
  pub payload_filter : Option J
  pub target_agent : Option String

-- What is used of the JSON library; `to_value` gives null where it fails.
pub record Json (J M X : Type 0) : Type 0 where
  pub as_object : J → Option (List (String × J))
  pub equal : J → J → Bool
  pub to_value : Event J M X → J

abbrev pub new_rule : {J : Type 0} → String → String → EventTriggerRule J
new_rule trigger_id watch_event = record {
  trigger_id = trigger_id;
  watch_event = watch_event;
  payload_filter = none;
  target_agent = none;
}

abbrev pub with_filter : {J : Type 0} → J → EventTriggerRule J → EventTriggerRule J
with_filter filter r = record r { payload_filter = some filter }

abbrev pub with_target : {J : Type 0} → String → EventTriggerRule J → EventTriggerRule J
with_target agent_id r = record r { target_agent = some agent_id }

-- `strip_prefix`.
abbrev pub strip_prefix : String → String → Option String
strip_prefix prefix s = if starts_with s prefix then get? s (len prefix) (len s) else none

-- The newest value under a key: a later insertion replaces an earlier one.
abbrev pub newest : {J : Type 0} → String → List (String × J) → Option J
newest k [] = none
newest k ((j, v) ∷ rest) = elim (newest k rest) [
  | some w ↦ some w
  | none ↦ if str_eq j k then some v else none
]

module _ {J M X : Type 0} where
  abbrev pub event_type_tag : Event J M X → String
  event_type_tag (agent_started agent_id) = "agent.started"
  event_type_tag (agent_stopped agent_id reason) = "agent.stopped"
  event_type_tag (agent_restarted agent_id attempt delay_ms) = "agent.restarted"
  event_type_tag (agent_failed agent_id attempts reason) = "agent.failed"
  event_type_tag (llm_request_started agent_id provider) = "llm.request.started"
  event_type_tag (llm_request_completed agent_id p c) = "llm.request.completed"
  event_type_tag (message_received agent_id channel message_type) = "message.received"
  event_type_tag (a2a m) = "a2a"
  event_type_tag (tool_called agent_id tool_name call_id) = "tool.called"
  event_type_tag (tool_result agent_id tool_name call_id success) = "tool.result"
  event_type_tag (context_window_approaching_limit agent_id c l) = "context.window.limit"
  event_type_tag (memory_archive_complete agent_id n) = "memory.archive.complete"
  event_type_tag (mode_changed agent_id to_power_mode) = "mode.changed"
  event_type_tag (extension x) = "extension"
  event_type_tag (trigger_fired t) = "trigger.fired"
  event_type_tag (custom event_type content) = "custom"
  event_type_tag shutdown = "shutdown"

  abbrev pub is_custom : Event J M X → String → Bool
  is_custom (custom event_type content) sub = str_eq event_type sub
  is_custom e sub = false

  abbrev pub sub_matches : Option String → Event J M X → Bool
  sub_matches none e = false
  sub_matches (some sub) e = is_custom e sub

  unfoldable pub type_tag_matches : String → String → Event J M X → Bool
  type_tag_matches watch_event type_tag e =
      if str_eq watch_event type_tag
      then true
      else sub_matches (strip_prefix "custom." watch_event) e

module _ {J M X : Type 0} (json : Json J M X) where
  abbrev pub inner : Option (List (String × J)) → List (String × J)
  inner none = []
  inner (some fields) = fields

  -- The insertions into `payload_map`: each field, followed by the fields of its value.
  unfoldable pub flattened : List (String × J) → List (String × J)
  flattened [] = []
  flattened ((k, v) ∷ fields) = (k, v) ∷ (inner (json.as_object v) ++ flattened fields)

  abbrev pub holds : Option J → J → Bool
  holds none fv = false
  holds (some pv) fv = json.equal pv fv

  abbrev pub objects_match : Option (List (String × J)) → Option (List (String × J)) → Bool
  objects_match none payload = false
  objects_match (some filter) none = false
  objects_match (some filter) (some fields) =
      all filter (λ entry. holds (newest entry.0 (flattened fields)) entry.1)

  unfoldable pub payload_matches : J → J → Bool
  payload_matches filter payload = objects_match (json.as_object filter) (json.as_object payload)

  abbrev pub filter_matches : Option J → J → Bool
  filter_matches none payload = true
  filter_matches (some filter) payload = payload_matches filter payload

  module _ (stamp : String → String × ℕ) where
    -- The trigger of a rule; `stamp` gives its identifier and time.
    abbrev pub fired : EventTriggerRule J → J → Event J M X
    fired rule payload =
        let (id, now) = stamp rule.trigger_id in
        trigger_fired (event_trigger id now rule.trigger_id payload rule.target_agent)

    unfoldable pub process_event : List (EventTriggerRule J) → Event J M X → List (Event J M X)
    unfolding type_tag_matches payload_matches
    process_event [] e = []
    process_event (rule ∷ rules) e =
        let payload = json.to_value e in
        let rest = process_event rules e in
        if not (type_tag_matches rule.watch_event (event_type_tag e) e)
        then rest
        else if not (filter_matches rule.payload_filter payload)
        then rest
        else fired rule payload ∷ rest

    -- `run`, for a number of events, on a bus to which only the registry publishes: what it
    -- publishes comes back to its receiver. A receiver with more waiting than the bus holds has
    -- lagged, which under the default strategy is an error, and `none` is the loop that it ends.
    unfoldable pub run :
        (capacity : ℕ)
        → ℕ
        → List (EventTriggerRule J)
        → List (Event J M X)
        → Option (List (Event J M X))
    unfolding process_event
    run capacity zero rules waiting = some waiting
    run capacity (suc n) rules [] = some []
    run capacity (suc n) rules (e ∷ waiting) =
        let later = run capacity n rules (waiting ++ process_event rules e) in
        if ltb capacity (suc (length waiting)) then none else later

-- The table of rules.
module _ {R J : Type 0} (rule_ops : KeyedMap R (EventTriggerRule J)) where
  unfoldable pub register : EventTriggerRule J → R → R
  register rule rules = rule_ops.insert rule.trigger_id rule rules

  unfoldable pub unregister : String → R → R × Bool
  unregister trigger_id rules =
      (rule_ops.remove trigger_id rules, is_some (rule_ops.get trigger_id rules))
