-- ===== src/Tools/Versioned/Reachable.antt =====
-- The versions of a module over every history of calls.
use claw_kernel.Prelude.{
  ℕ, suc, ◌+◌, ◌%◌, ◌≤◌, ◌<◌, max, ◌≡◌, refl, ◌∙◌, Option, none, some, leb, length, arith,
  Bool-cases, inl, inr,
}
use claw_kernel.Retry.{u64}
use claw_kernel.Tools.Versioned.{
  ModuleVersion, VersionedModule, new, with_capacity, swap, find_version, restore, rollback,
  rollback_previous, set_max_history,
}
use claw_kernel.Tools.Versioned.History.{Ends, push_version-Ends, trim-Ends}

module _ {T : Type 0} where
  -- The history is not empty and within its bound, its versions are numbered one after the other up
  -- to the counter, and the newest holds the current module.
  pub record IsValid (v : VersionedModule T) : Type 0 where
    pub first : ℕ
    pub newest : ModuleVersion T
    pub ends : Ends first newest v.versions
    pub numbers : first + length v.versions ≡ suc v.version_counter
    pub is_current : newest.module_data ≡ v.current
    pub within : length v.versions ≤ v.max_history
    pub nonempty : 1 ≤ length v.versions

  -- A call that changes the module; the counter does not wrap.
  pub data Step (v : VersionedModule T) : VersionedModule T → Type 0 where
    swaps : (m : T) (now : ℕ) → v.version_counter + 1 < u64 → Step v (swap m now v).0
    rolls_back : (target now : ℕ) → v.version_counter + 1 < u64 → Step v (rollback target now v).0
    rolls_back_previous :
        (now : ℕ) → v.version_counter + 1 < u64 → Step v (rollback_previous now v).0
    sets_max_history : (n : ℕ) → Step v (set_max_history n v)

  pub data Reach : VersionedModule T → Type 0 where
    started : (m : T) (now : ℕ) → Reach (new m now)
    started_with : (m : T) (n now : ℕ) → Reach (with_capacity m n now)
    next : {v v' : VersionedModule T} → Reach v → Step v v' → Reach v'

  pub swap-IsValid :
      (v : VersionedModule T) (m : T) (now : ℕ)
      → v.version_counter + 1 < u64
      → IsValid v
      → IsValid (swap m now v).0
  unfolding swap
  swap-IsValid v m now fits h =
      let (first', ends, sum, le, ge) =
        push_version-Ends v.max_history h.first _ v.versions (omega (arith, h.within, h.nonempty))
          h.within h.nonempty h.ends.numbered (omega (arith, no_wrap, h.numbers)) in
      record {
        first = first';
        newest = _;
        ends = ends;
        numbers = omega (arith, sum, h.numbers, no_wrap);
        is_current = refl;
        within = le;
        nonempty = ge;
      }
    where
      no_wrap : (v.version_counter + 1) % u64 ≡ suc v.version_counter
      no_wrap = ground arith

  restore-IsValid :
      (v : VersionedModule T) (o : Option (ModuleVersion T)) (now : ℕ)
      → v.version_counter + 1 < u64
      → IsValid v
      → IsValid (restore o now v).0
  unfolding restore
  restore-IsValid v none now fits h = h
  restore-IsValid v (some e) now fits h = swap-IsValid v e.module_data now fits h

  rollback_previous-IsValid :
      (v : VersionedModule T) (now : ℕ)
      → v.version_counter + 1 < u64
      → IsValid v
      → IsValid (rollback_previous now v).0
  unfolding rollback_previous
  rollback_previous-IsValid v now fits h = elim (Bool-cases (leb 2 (length v.versions))) [
    | inl two ↦ rw two (restore-IsValid v _ now fits h)
    | inr one ↦ rw one h
  ]

  set_max_history-IsValid :
      (v : VersionedModule T) (n : ℕ) → IsValid v → IsValid (set_max_history n v)
  unfolding set_max_history
  set_max_history-IsValid v n h =
      let (first', ends, sum, le, ge) =
        trim-Ends (max n 1) h.first h.newest v.versions (omega arith) h.ends in
      record {
        first = first';
        newest = h.newest;
        ends = ends;
        numbers = sum ∙ h.numbers;
        is_current = h.is_current;
        within = le;
        nonempty = ge;
      }

  Step-IsValid : {v v' : VersionedModule T} → Step v v' → IsValid v → IsValid v'
  unfolding rollback
  Step-IsValid {v} (swaps m now f) h = swap-IsValid v m now f h
  Step-IsValid {v} (rolls_back target now f) h =
      restore-IsValid v (find_version target v.versions) now f h
  Step-IsValid {v} (rolls_back_previous now f) h = rollback_previous-IsValid v now f h
  Step-IsValid {v} (sets_max_history n) h = set_max_history-IsValid v n h

  -- After any calls on a versioned module that leave its counter below 2 ^ 64, its history is not
  -- empty and within its bound, the versions are numbered one after the other up to the counter,
  -- and the newest holds the module that `load` gives.
  pub versions-IsValid : {v : VersionedModule T} → Reach v → IsValid v
  unfolding new with_capacity
  versions-IsValid (started m now) = record {
    first = 1;
    newest = _;
    ends = record { numbered = (refl, tt); newest = refl };
    numbers = refl;
    is_current = refl;
    within = omega arith;
    nonempty = omega arith;
  }
  versions-IsValid (started_with m n now) = record {
    first = 1;
    newest = _;
    ends = record { numbered = (refl, tt); newest = refl };
    numbers = refl;
    is_current = refl;
    within = omega arith;
    nonempty = omega arith;
  }
  versions-IsValid (next r s) = Step-IsValid s (versions-IsValid r)
