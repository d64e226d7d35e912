-- ===== src/Tools/Versioned.antt =====
-- crates/claw-tools/src/hot_reload/versioned.rs: `VersionedModule`, one call after the other. An
-- instant is a number and is an argument of the calls that record it.
pub mod History
pub mod Reachable
pub mod Rollback
use claw_kernel.Prelude.{
  ℕ, zero, suc, ◌+◌, ◌-◌, ◌%◌, max, Bool, true, false, Option, none, some, List, [], ◌∷◌, ◌++◌,
  if◌then◌else◌, ltb, leb, ◌==◌, length, drop, get_elem?,
}
use claw_kernel.Retry.{u64}

pub record ModuleVersion (T : Type 0) : Type 0 where
  pub version : ℕ  -- u64
  pub module_data : T
  pub loaded_at : ℕ

pub record VersionedModule (T : Type 0) : Type 0 where
  pub current : T
  pub versions : List (ModuleVersion T)  -- oldest first
  pub version_counter : ℕ  -- u64
  pub max_history : ℕ

module _ {T : Type 0} where
  unfoldable pub with_capacity : T → ℕ → ℕ → VersionedModule T
  with_capacity initial max_history now = record {
    current = initial;
    versions = record { version = 1; module_data = initial; loaded_at = now } ∷ [];
    version_counter = 1;
    max_history = max max_history 1;
  }

  unfoldable pub new : T → ℕ → VersionedModule T
  new initial now = record {
    current = initial;
    versions = record { version = 1; module_data = initial; loaded_at = now } ∷ [];
    version_counter = 1;
    max_history = 10;
  }

  unfoldable pub load : VersionedModule T → T
  load v = v.current

  -- The push under the write lock; one version is removed if there are too many.
  unfoldable pub push_version :
      ℕ → ModuleVersion T → List (ModuleVersion T) → List (ModuleVersion T)
  push_version max_history version versions =
      let pushed = versions ++ version ∷ [] in
      if ltb max_history (length pushed) then drop 1 pushed else pushed

  -- The counter, the history, and then the current module.
  unfoldable pub swap : T → ℕ → VersionedModule T → VersionedModule T × ℕ
  swap new_module now v =
      let new_version = (v.version_counter + 1) % u64 in
      (
        record v {
          current = new_module;
          versions =
              push_version v.max_history
                (record { version = new_version; module_data = new_module; loaded_at = now })
                v.versions;
          version_counter = new_version;
        },
        new_version,
      )

  unfoldable pub current_version : VersionedModule T → ℕ
  current_version v = v.version_counter

  unfoldable pub history_len : VersionedModule T → ℕ
  history_len v = length v.versions

  -- `iter().find(|v| v.version == target_version)`.
  unfoldable pub find_version : ℕ → List (ModuleVersion T) → Option (ModuleVersion T)
  find_version target [] = none
  find_version target (e ∷ es) =
      let rest = find_version target es in if e.version == target then some e else rest

  -- The module of an older version becomes a new version; without one nothing changes.
  unfoldable pub restore :
      Option (ModuleVersion T) → ℕ → VersionedModule T → VersionedModule T × Bool
  restore none now v = (v, false)
  restore (some e) now v = ((swap e.module_data now v).0, true)

  unfoldable pub rollback : ℕ → ℕ → VersionedModule T → VersionedModule T × Bool
  rollback target_version now v = restore (find_version target_version v.versions) now v

  unfoldable pub rollback_previous : ℕ → VersionedModule T → VersionedModule T × Bool
  rollback_previous now v =
      if leb 2 (length v.versions)
      then restore (get_elem? v.versions (length v.versions - 2)) now v
      else (v, false)

  -- `while versions.len() > max_history { versions.remove(0) }`.
  unfoldable pub trim : ℕ → List (ModuleVersion T) → List (ModuleVersion T)
  trim max_history [] = []
  trim max_history (e ∷ es) =
      let rest = trim max_history es in if ltb max_history (length (e ∷ es)) then rest else e ∷ es

  unfoldable pub set_max_history : ℕ → VersionedModule T → VersionedModule T
  set_max_history n v = record v { versions = trim (max n 1) v.versions; max_history = max n 1 }
