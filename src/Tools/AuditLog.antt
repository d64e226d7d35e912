-- ===== src/Tools/AuditLog.antt =====
-- crates/claw-tools/src/registry.rs: the audit log in memory, a map ordered by number, and the
-- eviction of its oldest tenth. The map is a list with the numbers rising.
pub mod Newest
use claw_kernel.Prelude.{ℕ, ◌/◌, max, List, [], ◌∷◌, map, if◌then◌else◌, ltb, ◌==◌, length, take}
use mathlib.Core.List.{reverse}
use claw_kernel.Tools.Types.{LogEntry}

unfoldable pub insert_key : ℕ → LogEntry → List (ℕ × LogEntry) → List (ℕ × LogEntry)
insert_key k e [] = (k, e) ∷ []
insert_key k e ((j, d) ∷ log) =
    let rest = insert_key k e log in
    if ltb k j then (k, e) ∷ (j, d) ∷ log else if k == j then (k, e) ∷ log else (j, d) ∷ rest

unfoldable pub remove_key : ℕ → List (ℕ × LogEntry) → List (ℕ × LogEntry)
remove_key k [] = []
remove_key k ((j, d) ∷ log) = let rest = remove_key k log in if k == j then log else (j, d) ∷ rest

unfoldable pub remove_keys : List ℕ → List (ℕ × LogEntry) → List (ℕ × LogEntry)
unfolding remove_key
remove_keys [] log = log
remove_keys (k ∷ ks) log = remove_keys ks (remove_key k log)

unfoldable pub evict : ℕ → List (ℕ × LogEntry) → List (ℕ × LogEntry)
unfolding remove_keys
evict max_entries log =
    if ltb max_entries (length log)
    then remove_keys (take (max (max_entries / 10) 1) (map (λ e. e.0) log)) log
    else log

-- `values().rev().take(n)`.
unfoldable pub recent_log : ℕ → List (ℕ × LogEntry) → List LogEntry
recent_log n log = take n (reverse (map (λ e. e.1) log))
