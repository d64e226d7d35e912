-- ===== src/Runtime/A2a.antt =====
-- crates/claw-runtime/src/a2a/protocol.rs: the messages between agents. A payload is of type `P`.
pub mod Mailbox
pub mod Router
use claw_kernel.Prelude.{
  ℕ, ◌-◌, ◌*◌, Bool, true, false, Option, none, some, List, [], ◌∷◌, String, ltb, ◌==◌,
}

pub data MessagePriority : Type 0 where
  critical high normal low background : MessagePriority

abbrev pub as_u8 : MessagePriority → ℕ
as_u8 critical = 0
as_u8 high = 1
as_u8 normal = 2
as_u8 low = 3
as_u8 background = 4

abbrev pub is_direct : MessagePriority → Bool
is_direct critical = true
is_direct high = true
is_direct p = false

pub data A2AMessageType : Type 0 where
  request response event discovery_request discovery_response heartbeat error : A2AMessageType

pub record A2AMessage (P : Type 0) : Type 0 where
  pub id : String
  pub source : String
  pub target : Option String
  pub message_type : A2AMessageType
  pub payload : P
  pub priority : MessagePriority
  pub correlation_id : Option String
  pub timestamp : ℕ
  pub ttl_secs : Option ℕ

module _ {P : Type 0} where
  abbrev pub new_message : ℕ → String → String → A2AMessageType → P → A2AMessage P
  new_message now id source message_type payload = record {
    id = id;
    source = source;
    target = none;
    message_type = message_type;
    payload = payload;
    priority = normal;
    correlation_id = none;
    timestamp = now;
    ttl_secs = none;
  }

  abbrev pub with_target : String → A2AMessage P → A2AMessage P
  with_target target m = record m { target = some target }

  abbrev pub with_priority : MessagePriority → A2AMessage P → A2AMessage P
  with_priority priority m = record m { priority = priority }

  abbrev pub with_correlation_id : String → A2AMessage P → A2AMessage P
  with_correlation_id id m = record m { correlation_id = some id }

  abbrev pub with_ttl : ℕ → A2AMessage P → A2AMessage P
  with_ttl ttl_secs m = record m { ttl_secs = some ttl_secs }

  -- The age saturates at 0; a time to live is 32 bits wide, so the product does not overflow.
  unfoldable pub is_expired : ℕ → A2AMessage P → Bool
  is_expired now m = elim m.ttl_secs [
    | none ↦ false
    | some ttl ↦ ltb (ttl * 1000) (now - m.timestamp)
  ]
