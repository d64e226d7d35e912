-- ===== src/Memory/Secure/Quota.antt =====
-- Which items a store with a quota takes.
use claw_kernel.Prelude.{
  ℕ, ◌+◌, ◌≤◌, ◌<◌, min, ◌≡◌, refl, ◌⊎◌, inl, inr, true, false, ok, err, ◌==◌, ltb, arith, lt→ltb,
  le→ltb, Bool-cases, ltb→lt,
}
use claw_kernel.Memory.{MemoryItem, quota_exceeded, u64_max}
use claw_kernel.Memory.Secure.{
  SecureMemoryStore, estimate_size, enforce_namespace, store_within, store,
}

module _ {F S : Type 0} (m : SecureMemoryStore F S) (item : MemoryItem F) (s s' : S)
    (used : ℕ) where
  -- With a quota below 2 ^ 64 - 1, which stands for none, and a known usage of the item's namespace,
  -- the own one when isolated: the usage and the estimate for the item as given fit the quota and the
  -- item under that namespace goes to the wrapped store, or they exceed it, counted without
  -- overflow, and the item is refused with the usage.
  pub store-quota :
      m.config.quota_bytes < u64_max
      → m.inner.namespace_usage (enforce_namespace m item).namespace s ≡ (ok used, s')
      → ((used + estimate_size item ≤ m.config.quota_bytes)
          × (store m item s ≡ m.inner.store (enforce_namespace m item) s'))
        ⊎ ((m.config.quota_bytes < used + estimate_size item)
            × (store m item s ≡ (
              err (quota_exceeded (enforce_namespace m item).namespace used m.config.quota_bytes),
              s',
            )))
  unfolding store store_within
  store-quota bounded usage =
      elim (Bool-cases (ltb m.config.quota_bytes (used + estimate_size item))) [
        | inl exceeds ↦
            inr (ltb→lt _ _ exceeds, rw limited (rw usage (rw (over (ltb→lt _ _ exceeds)) refl)))
        | inr fits ↦
            inl
              (ground (arith, fits), rw limited (rw usage (rw (under (ground (arith, fits))) refl)))
      ]
    where
      limited : (m.config.quota_bytes == u64_max) ≡ false
      limited = ground (arith, bounded)

      over :
          m.config.quota_bytes < used + estimate_size item
          → ltb m.config.quota_bytes (min (used + estimate_size item) u64_max) ≡ true
      over h = lt→ltb _ _ (omega (arith, h, bounded))

      under :
          used + estimate_size item ≤ m.config.quota_bytes
          → ltb m.config.quota_bytes (min (used + estimate_size item) u64_max) ≡ false
      under h = le→ltb _ _ (omega (arith, h))
