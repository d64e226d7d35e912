-- ===== src/Memory/Secure.antt =====
-- crates/claw-memory/src/secure.rs: `SecureMemoryStore`, a store restricted to one namespace and a
-- quota of bytes. The store that it wraps is a parameter. The quota lock makes a call of `store` one
-- step of the state.
pub mod Quota
pub mod Isolation
use claw_kernel.Prelude.{
  ℕ, ◌+◌, ◌*◌, min, Bool, true, false, not, ◌&&◌, Option, none, some, List, [], ◌∷◌, String, Result,
  ok, err, if◌then◌else◌, ltb, ◌==◌, length, str_eq,
}
use Prim.Native.String.{len, ◌++◌ as ◌+++◌}
use claw_kernel.Memory.{
  MemoryItem, EpisodicEntry, EpisodicFilter, MemoryError, access_denied, quota_exceeded,
  MemorySecurityConfig, u64_max, MemoryStore,
}

unfoldable pub tags_size : List String → ℕ
tags_size [] = 0
tags_size (t ∷ ts) = (len t + 2) + tags_size ts

module _ {F : Type 0} where
  abbrev pub embedding_size : Option (List F) → ℕ
  embedding_size none = 0
  embedding_size (some e) = length e * 4

  unfoldable pub calculate_entry_size : String → List String → Option (List F) → ℕ
  unfolding tags_size
  calculate_entry_size content tags embedding =
      len content + tags_size tags + embedding_size embedding + 128

  unfoldable pub estimate_size : MemoryItem F → ℕ
  unfolding calculate_entry_size
  estimate_size item =
      calculate_entry_size item.content item.tags item.embedding
      + (len item.item_id + len item.namespace)

  -- `iter().filter(..).collect()`.
  unfoldable pub retain_namespace : String → List (MemoryItem F) → List (MemoryItem F)
  retain_namespace own [] = []
  retain_namespace own (x ∷ xs) =
      let rest = retain_namespace own xs in if str_eq x.namespace own then x ∷ rest else rest

  abbrev pub keep_own : String → Option (MemoryItem F) → Option (MemoryItem F)
  keep_own own none = none
  keep_own own (some x) = if str_eq x.namespace own then some x else none

-- A result changed by `f` when it is not an error, with the state.
abbrev pub and_then :
    {S A B : Type 0} → (A → B) → Result MemoryError A × S → Result MemoryError B × S
and_then f (ok a, s) = (ok (f a), s)
and_then f (err e, s) = (err e, s)

abbrev pub when_isolated : {A : Type 0} → Bool → (A → A) → A → A
when_isolated true f a = f a
when_isolated false f a = a

pub record SecureMemoryStore (F S : Type 0) : Type 0 where
  pub inner : MemoryStore F S
  pub config : MemorySecurityConfig
  pub namespace : String

module _ {F S : Type 0} where
  unfoldable pub enforce_namespace : SecureMemoryStore F S → MemoryItem F → MemoryItem F
  enforce_namespace m item =
      if m.config.namespace_isolation then record item { namespace = m.namespace } else item

  -- The check of the quota, with the answer of `namespace_usage`, and the store.
  unfoldable pub store_within :
      SecureMemoryStore F S
      → ℕ
      → MemoryItem F
      → Result MemoryError ℕ × S
      → Result MemoryError String × S
  store_within m estimated item (err e, s) = (err e, s)
  store_within m estimated item (ok current, s) =
      if ltb m.config.quota_bytes (min (current + estimated) u64_max)
      then (err (quota_exceeded item.namespace current m.config.quota_bytes), s)
      else m.inner.store item s

  unfoldable pub store : SecureMemoryStore F S → MemoryItem F → S → Result MemoryError String × S
  unfolding estimate_size enforce_namespace store_within
  store m item s =
      let estimated = estimate_size item in
      let item' = enforce_namespace m item in
      if m.config.quota_bytes == u64_max
      then m.inner.store item' s
      else store_within m estimated item' (m.inner.namespace_usage item'.namespace s)

  -- The default of the trait, an item after the other.
  unfoldable pub store_batch :
      SecureMemoryStore F S → List (MemoryItem F) → S → Result MemoryError (List String) × S
  unfolding store
  store_batch m [] s = (ok [], s)
  store_batch m (item ∷ items) s =
      let (stored, s') = store m item s in
      elim stored [
        | ok id ↦ and_then (λ ids. id ∷ ids) (store_batch m items s')
        | err e ↦ (err e, s')
      ]

  abbrev pub quota_checked :
      SecureMemoryStore F S
      → MemoryItem F
      → (estimated quota : ℕ) → Result MemoryError ℕ × S
      → Result MemoryError String × S
  unfolding store
  quota_checked m item estimated quota (err e, s) = (err e, s)
  quota_checked m item estimated quota (ok used, s) =
      if ltb quota (min (used + estimated) u64_max)
      then (err (quota_exceeded item.namespace used quota), s)
      else store m item s

  -- The default of the trait.
  unfoldable pub store_with_quota_check :
      SecureMemoryStore F S
      → MemoryItem F
      → (estimated quota : ℕ) → S
      → Result MemoryError String × S
  store_with_quota_check m item estimated quota s =
      quota_checked m item estimated quota (m.inner.namespace_usage item.namespace s)

  unfoldable pub retrieve :
      SecureMemoryStore F S → String → S → Result MemoryError (Option (MemoryItem F)) × S
  retrieve m id s =
      when_isolated m.config.namespace_isolation (and_then (keep_own m.namespace))
        (m.inner.retrieve id s)

  unfoldable pub search_episodic :
      SecureMemoryStore F S → EpisodicFilter → S → Result MemoryError (List EpisodicEntry) × S
  search_episodic m f s =
      if m.config.namespace_isolation
      then m.inner.search_episodic (record f { namespace = some m.namespace }) s
      else m.inner.search_episodic f s

  unfoldable pub filter_found :
      SecureMemoryStore F S
      → Result MemoryError (List (MemoryItem F)) × S
      → Result MemoryError (List (MemoryItem F)) × S
  unfolding retain_namespace
  filter_found m found =
      when_isolated m.config.namespace_isolation (and_then (retain_namespace m.namespace)) found

  unfoldable pub semantic_search :
      SecureMemoryStore F S → List F → ℕ → S → Result MemoryError (List (MemoryItem F)) × S
  unfolding filter_found
  semantic_search m query top_k s = filter_found m (m.inner.semantic_search query top_k s)

  unfoldable pub delete : SecureMemoryStore F S → String → S → Result MemoryError (Unit {0}) × S
  delete m id s = m.inner.delete id s

  unfoldable pub clear_namespace : SecureMemoryStore F S → String → S → Result MemoryError ℕ × S
  clear_namespace m target s =
      if m.config.namespace_isolation && not (str_eq target m.namespace)
      then (
        err (
            access_denied (
              "cannot clear namespace '" +++ target +++ "'; only '" +++ m.namespace
              +++ "' is allowed")),
        s,
      )
      else m.inner.clear_namespace target s

  unfoldable pub namespace_usage : SecureMemoryStore F S → String → S → Result MemoryError ℕ × S
  namespace_usage m target s = m.inner.namespace_usage target s

  unfoldable pub keyword_search :
      SecureMemoryStore F S → String → ℕ → S → Result MemoryError (List (MemoryItem F)) × S
  unfolding filter_found
  keyword_search m query top_k s = filter_found m (m.inner.keyword_search query top_k s)

  unfoldable pub hybrid_search :
      SecureMemoryStore F S
      → String
      → List F
      → ℕ
      → F
      → S
      → Result MemoryError (List (MemoryItem F)) × S
  unfolding filter_found
  hybrid_search m query vector top_k alpha s =
      filter_found m (m.inner.hybrid_search query vector top_k alpha s)
