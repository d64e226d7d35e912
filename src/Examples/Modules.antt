-- ===== src/Examples/Modules.antt =====
-- A versioned module at concrete inputs.
use claw_kernel.Prelude.{◌+◌, ◌<◌, ◌≤◌, ◌≡◌, refl, ◌⊎◌, false, String, arith}
use claw_kernel.Retry.{u64}
use claw_kernel.Tools.Versioned.{
  VersionedModule, with_capacity, push_version, swap, find_version, restore, rollback,
}
use claw_kernel.Tools.Versioned.Reachable.{
  swaps, Reach, started_with, next, IsValid, versions-IsValid,
}
use claw_kernel.Tools.Versioned.Rollback.{IsHeld, RolledBack, rollback_lem}

abbrev first_version : VersionedModule String
first_version = with_capacity "v1" 2 0

abbrev third_version : VersionedModule String
third_version = (swap "v3" 2 (swap "v2" 1 first_version).0).0

third_Reach : Reach third_version
unfolding with_capacity swap
third_Reach =
    next (next (started_with "v1" 2 0) (swaps "v2" 1 (omega arith))) (swaps "v3" 2 (omega arith))

versions-IsValid_example : IsValid third_version
versions-IsValid_example = versions-IsValid third_Reach

-- The history holds two versions, so the first is gone.
first_is_gone : (rollback 1 3 third_version).1 ≡ false
unfolding with_capacity swap rollback restore find_version push_version
first_is_gone = refl

third_fits : third_version.version_counter + 1 < u64
unfolding with_capacity swap
third_fits = omega arith

rollback_lem_example :
    (IsHeld third_version 2 × RolledBack third_version 2 (rollback 2 3 third_version))
    ⊎ ((¬ IsHeld third_version 2) × (rollback 2 3 third_version ≡ (third_version, false)))
rollback_lem_example = rollback_lem third_version 2 3 (versions-IsValid third_Reach) third_fits

fourth_fits : third_version.version_counter + 2 < u64
unfolding with_capacity swap
fourth_fits = omega arith

keeps_two : 2 ≤ third_version.max_history
unfolding with_capacity swap
keeps_two = omega arith
