-- ===== src/Examples/Memories.antt =====
-- A store in one namespace over a store that keeps a list.
use claw_kernel.Prelude.{
  ℕ, ◌+◌, ◌≡◌, ◌≤◌, ◌<◌, refl, ◌⊎◌, none, List, [], ◌∷◌, String, Result, ok, err, arith,
}
use claw_kernel.Memory.{
  MemoryItem, MemoryError, quota_exceeded, MemorySecurityConfig, MemoryStore, safe_mode,
}
use claw_kernel.Memory.Secure.{
  SecureMemoryStore, estimate_size, enforce_namespace, store, semantic_search, keyword_search,
  hybrid_search,
}
use claw_kernel.Memory.Secure.Quota.{store-quota}
use claw_kernel.Memory.Secure.Isolation.{OwnOf, searches-OwnOf}

abbrev Items : Type 0
Items = List (MemoryItem ℕ)

abbrev add_item : MemoryItem ℕ → Items → Result MemoryError String × Items
add_item item s = (ok item.item_id, item ∷ s)

abbrev all_items : Items → Result MemoryError Items × Items
all_items s = (ok s, s)

-- Finds everything and counts a byte for the first item.
abbrev listed : MemoryStore ℕ Items
listed = record {
  store = add_item;
  retrieve = λ id s. (ok none, s);
  search_episodic = λ filter s. (ok [], s);
  semantic_search = λ vector top_k s. all_items s;
  delete = λ id s. (ok tt, []);
  clear_namespace = λ target s. (ok 0, []);
  namespace_usage = λ target s. (ok 1, s);
  keyword_search = λ query top_k s. all_items s;
  hybrid_search = λ query vector top_k alpha s. all_items s;
}

abbrev item_of : String → MemoryItem ℕ
item_of owner = record {
  item_id = "mem-1";
  namespace = owner;
  content = "dark mode";
  embedding = none;
  tags = "ui" ∷ [];
  created_at_ms = 0;
  accessed_at_ms = 0;
  importance = 0;
}

abbrev small : MemorySecurityConfig
small = record safe_mode { quota_bytes = 200 }

abbrev ann_memory : SecureMemoryStore ℕ Items
ann_memory = record { inner = listed; config = small; namespace = "ann" }

abbrev shared_items : Items
shared_items = item_of "bob" ∷ item_of "ann" ∷ []

finds_own : semantic_search ann_memory [] 2 shared_items ≡ (ok (item_of "ann" ∷ []), shared_items)
unfolding semantic_search
finds_own = refl

store-quota_example :
    ((1 + estimate_size (item_of "bob") ≤ 200)
      × (store ann_memory (item_of "bob") shared_items
          ≡ add_item (enforce_namespace ann_memory (item_of "bob")) shared_items))
    ⊎ ((200 < 1 + estimate_size (item_of "bob"))
        × (store ann_memory (item_of "bob") shared_items ≡ (
          err (quota_exceeded (enforce_namespace ann_memory (item_of "bob")).namespace 1 200),
          shared_items,
        )))
store-quota_example =
    store-quota ann_memory (item_of "bob") shared_items shared_items 1 (omega arith) refl

searches-OwnOf_example :
    OwnOf "ann" (all_items shared_items) (semantic_search ann_memory [] 2 shared_items)
    × OwnOf "ann" (all_items shared_items) (keyword_search ann_memory "mode" 2 shared_items)
    × OwnOf "ann" (all_items shared_items) (hybrid_search ann_memory "mode" [] 2 1 shared_items)
searches-OwnOf_example = searches-OwnOf ann_memory "mode" [] 2 1 shared_items refl
