-- ===== src/Memory.antt =====
-- crates/claw-memory/src/{types.rs, config.rs, error.rs, traits.rs}: the items of a memory, its
-- security configuration, its errors and the interface of a store. Floats are a parameter.
pub mod Secure
use claw_kernel.Prelude.{ℕ, ◌*◌, ◌-◌, ◌^◌, Bool, true, false, Option, List, String, Result}

pub record MemoryItem (F : Type 0) : Type 0 where
  pub item_id : String
  pub namespace : String
  pub content : String
  pub embedding : Option (List F)
  pub tags : List String
  pub created_at_ms : ℕ
  pub accessed_at_ms : ℕ
  pub importance : F

pub record EpisodicEntry : Type 0 where
  pub entry_id : String
  pub episode_id : String
  pub namespace : String
  pub role : String
  pub content : String
  pub timestamp_ms : ℕ
  pub turn_index : ℕ

pub record EpisodicFilter : Type 0 where
  pub episode_id : Option String
  pub namespace : Option String
  pub after_ms : Option ℕ
  pub before_ms : Option ℕ
  pub limit : Option ℕ

pub data MemoryError : Type 0 where
  not_found storage embedding_error access_denied serialization : String → MemoryError
  quota_exceeded : (namespace : String) (used limit : ℕ) → MemoryError

pub record MemorySecurityConfig : Type 0 where
  pub namespace_isolation : Bool
  pub quota_bytes : ℕ
  pub semantic_search_enabled : Bool
  pub max_embedding_dims : ℕ

abbrev pub u64_max : ℕ
u64_max = 2 ^ 64 - 1

abbrev pub safe_mode : MemorySecurityConfig
safe_mode = record {
  namespace_isolation = true;
  quota_bytes = 50 * 1024 * 1024;
  semantic_search_enabled = true;
  max_embedding_dims = 64;
}

abbrev pub power_mode : MemorySecurityConfig
power_mode = record {
  namespace_isolation = false;
  quota_bytes = u64_max;
  semantic_search_enabled = true;
  max_embedding_dims = 1024;
}

-- A store with the state `S`: each operation gives its result and the state after it.
pub record MemoryStore (F S : Type 0) : Type 0 where
  pub store : MemoryItem F → S → Result MemoryError String × S
  pub retrieve : String → S → Result MemoryError (Option (MemoryItem F)) × S
  pub search_episodic : EpisodicFilter → S → Result MemoryError (List EpisodicEntry) × S
  pub semantic_search : List F → ℕ → S → Result MemoryError (List (MemoryItem F)) × S
  pub delete : String → S → Result MemoryError (Unit {0}) × S
  pub clear_namespace : String → S → Result MemoryError ℕ × S
  pub namespace_usage : String → S → Result MemoryError ℕ × S
  pub keyword_search : String → ℕ → S → Result MemoryError (List (MemoryItem F)) × S
  pub hybrid_search : String → List F → ℕ → F → S → Result MemoryError (List (MemoryItem F)) × S
