-- ===== src/Channel/DeduplicatingRouter.antt =====
-- crates/claw-channel/src/router.rs: `DeduplicatingRouter`. An instant is a number of milliseconds
-- and is an argument of each call; the table of seen identifiers is a `KeyedMap`.
pub mod Refines
use claw_kernel.Prelude.{
  ℕ, ◌+◌, ◌-◌, ◌%◌, Bool, true, false, Option, none, some, List, [], ◌∷◌, String, if◌then◌else◌,
  ltb, ◌==◌,
}
use claw_kernel.Prelude.KeyedMap.{KeyedMap}
use claw_kernel.Retry.{u64}
use claw_kernel.Channel.{ChannelMessage}
use claw_kernel.Channel.Router.{RegexOps, ChannelRouter}
use claw_kernel.Channel.Router

pub record DeduplicatingRouter (R M S : Type 0) : Type 0 where
  pub inner : ChannelRouter R M
  pub seen : S
  pub ttl : ℕ
  pub call_count : ℕ  -- usize
  pub gc_interval : ℕ

abbrev pub default_dedup_ttl : ℕ
default_dedup_ttl = 60000

abbrev pub default_gc_interval : ℕ
default_gc_interval = 64

-- An entry within its time to live.
abbrev pub within_ttl : ℕ → ℕ → Option ℕ → Bool
within_ttl now ttl none = false
within_ttl now ttl (some t) = ltb (now - t) ttl

module _ {R M S : Type 0} (seen_ops : KeyedMap S ℕ) where
  unfoldable pub new : ChannelRouter R M → DeduplicatingRouter R M S
  new inner = record {
    inner = inner;
    seen = seen_ops.empty;
    ttl = default_dedup_ttl;
    call_count = 0;
    gc_interval = default_gc_interval;
  }

  unfoldable pub with_ttl : ℕ → DeduplicatingRouter R M S → DeduplicatingRouter R M S
  with_ttl ttl d = record d { ttl = ttl }

  unfoldable pub with_gc_interval : ℕ → DeduplicatingRouter R M S → DeduplicatingRouter R M S
  with_gc_interval n d = record d { gc_interval = n }

  unfoldable pub seen_count : DeduplicatingRouter R M S → ℕ
  seen_count d = seen_ops.len d.seen

  -- Counts the call, and sweeps the expired entries if it is a sweeping one.
  unfoldable pub count_and_sweep : ℕ → DeduplicatingRouter R M S → DeduplicatingRouter R M S
  count_and_sweep now d = record d {
    call_count = (d.call_count + 1) % u64;
    seen =
        if d.call_count % d.gc_interval == 0
        then seen_ops.retain (λ t. ltb (now - t) d.ttl) d.seen
        else d.seen;
  }

  unfoldable pub look_up_or_record :
      String → ℕ → DeduplicatingRouter R M S → DeduplicatingRouter R M S × Bool
  look_up_or_record id now d =
      if within_ttl now d.ttl (seen_ops.get id d.seen)
      then (d, true)
      else (record d { seen = seen_ops.insert id now d.seen }, false)

  -- `none` is the panic of a remainder by zero.
  unfoldable pub is_duplicate :
      String → ℕ → DeduplicatingRouter R M S → Option (DeduplicatingRouter R M S × Bool)
  is_duplicate id now d =
      if d.gc_interval == 0 then none else some (look_up_or_record id now (count_and_sweep now d))

  answer {ℓ} :
      {A : Type ℓ}
      → A
      → A
      → Option (DeduplicatingRouter R M S × Bool)
      → Option (DeduplicatingRouter R M S × A)
  answer dropped passed none = none
  answer dropped passed (some (d, true)) = some (d, dropped)
  answer dropped passed (some (d, false)) = some (d, passed)

  unfoldable pub route :
      RegexOps R
      → ChannelMessage
      → ℕ
      → DeduplicatingRouter R M S
      → Option (DeduplicatingRouter R M S × Option String)
  unfolding answer
  route regex msg now d = answer none (Router.route regex d.inner msg) (is_duplicate msg.id now d)

  unfoldable pub broadcast_route :
      RegexOps R
      → ChannelMessage
      → ℕ
      → DeduplicatingRouter R M S
      → Option (DeduplicatingRouter R M S × List String)
  unfolding answer
  broadcast_route regex msg now d =
      answer [] (Router.broadcast_route regex d.inner msg) (is_duplicate msg.id now d)
