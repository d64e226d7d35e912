-- ===== src/Server/ChannelRegistry.antt =====
-- crates/claw-server/src/channel_registry.rs. The three tables are `KeyedMap`s; a configuration is
-- a JSON value of type `J`, an outbound sender a value of type `X` with the outcome of a send; an
-- instant is a number of milliseconds and is an argument of each call.
pub mod Laws
use claw_kernel.Prelude.{
  ℕ, ◌-◌, Bool, true, false, Option, none, some, List, [], ◌∷◌, String, if◌then◌else◌, ltb, is_some,
  Result, ok, err,
}
use claw_kernel.Prelude.KeyedMap.{KeyedMap}

pub record RegisteredChannel (J X : Type 0) : Type 0 where
  pub channel_id : String
  pub channel_type : String
  pub config : J
  pub registered_at : ℕ
  pub outbound_tx : Option X

-- The texts of the errors, each with the channel that it names.
pub data RegistryError : Type 0 where
  already_registered : String → RegistryError
  not_found : String → RegistryError
  no_outbound_sender : String → RegistryError
  outbound_closed : String → RegistryError

pub record ChannelRegistry (C S T : Type 0) : Type 0 where
  pub channels : C
  pub seen_ids : S
  pub thread_sessions : T

abbrev pub seen_ttl : ℕ
seen_ttl = 60000

module _ {C S T J X : Type 0} (channel_ops : KeyedMap C (RegisteredChannel J X))
    (seen_ops : KeyedMap S ℕ) (thread_ops : KeyedMap T String) where
  unfoldable pub new : ChannelRegistry C S T
  new = record {
    channels = channel_ops.empty;
    seen_ids = seen_ops.empty;
    thread_sessions = thread_ops.empty;
  }

  unfoldable pub get_thread_session : String → ChannelRegistry C S T → Option String
  get_thread_session thread_id r = thread_ops.get thread_id r.thread_sessions

  unfoldable pub set_thread_session :
      String → String → ChannelRegistry C S T → ChannelRegistry C S T
  set_thread_session thread_id session_id r = record r {
    thread_sessions = thread_ops.insert thread_id session_id r.thread_sessions;
  }

  unfoldable pub register :
      String
      → String
      → J
      → Option X
      → ℕ
      → ChannelRegistry C S T
      → ChannelRegistry C S T × Result RegistryError (Unit {0})
  register channel_type channel_id config outbound_tx now r =
      if is_some (channel_ops.get channel_id r.channels)
      then (r, err (already_registered channel_id))
      else (
        record r {
          channels =
              channel_ops.insert channel_id
                (record {
                  channel_id = channel_id;
                  channel_type = channel_type;
                  config = config;
                  registered_at = now;
                  outbound_tx = outbound_tx;
                })
                r.channels;
        },
        ok tt,
      )

  unfoldable pub unregister : String → ChannelRegistry C S T → ChannelRegistry C S T × Bool
  unregister channel_id r = (
    record r { channels = channel_ops.remove channel_id r.channels },
    is_some (channel_ops.get channel_id r.channels),
  )

  -- `sent` is whether the channel of a sender takes the frame.
  send_with : String → (X → Bool) → Option (RegisteredChannel J X) → Result RegistryError (Unit {0})
  send_with channel_id sent none = err (not_found channel_id)
  send_with channel_id sent (some c) = elim c.outbound_tx [
    | none ↦ err (no_outbound_sender channel_id)
    | some tx ↦ if sent tx then ok tt else err (outbound_closed channel_id)
  ]

  unfoldable pub send_outbound :
      String → (X → Bool) → ChannelRegistry C S T → Result RegistryError (Unit {0})
  unfolding send_with
  send_outbound channel_id sent r =
      send_with channel_id sent (channel_ops.get channel_id r.channels)

  record_seen : String → ℕ → ChannelRegistry C S T → ChannelRegistry C S T × Bool
  record_seen message_id now r =
      if is_some (seen_ops.get message_id r.seen_ids)
      then (r, true)
      else (record r { seen_ids = seen_ops.insert message_id now r.seen_ids }, false)

  -- Under the lock: evicts the expired entries, then looks up or records.
  unfoldable pub is_duplicate : String → ℕ → ChannelRegistry C S T → ChannelRegistry C S T × Bool
  unfolding record_seen
  is_duplicate message_id now r =
      record_seen message_id now
        (record r { seen_ids = seen_ops.retain (λ t. ltb (now - t) seen_ttl) r.seen_ids })
