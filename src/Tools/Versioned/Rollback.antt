-- ===== src/Tools/Versioned/Rollback.antt =====
-- What a rollback of crates/claw-tools/src/hot_reload/versioned.rs restores.
use claw_kernel.Prelude.{
  ℕ, zero, suc, ◌+◌, ◌-◌, ◌%◌, ◌≤◌, ◌<◌, ◌≡◌, refl, ◌⊎◌, Bool, true, false, none, some, List, [],
  ◌∷◌, ◌++◌, if◌then◌else◌, ltb, leb, length, drop, last?, get_elem?, is_some, ltb→lt, le→leb,
  arith, Bool-cases, Option-cases, inl, inr, length-append,
}
use claw_kernel.Retry.{u64}
use claw_kernel.Tools.Versioned.{
  ModuleVersion, VersionedModule, load, current_version, push_version, swap, find_version, restore,
  rollback, rollback_previous,
}
use claw_kernel.Tools.Versioned.History.{Numbered, find_version-Numbered, get_elem?-is_some}
use claw_kernel.Tools.Versioned.Reachable.{IsValid}

module _ {T : Type 0} where
  get_elem?-version :
      (k i : ℕ) (es : List (ModuleVersion T)) (e : ModuleVersion T)
      → Numbered k es
      → get_elem? es i ≡ some e
      → e.version ≡ k + i
  get_elem?-version k i [] e n h = cc
  get_elem?-version k zero (a ∷ es) e n h = ground (arith, n.0)
  get_elem?-version k (suc i) (a ∷ es) e n h = omega (arith, get_elem?-version (suc k) i es e n.1 h)

  -- The version is one of those that the history still holds.
  abbrev pub IsHeld : VersionedModule T → ℕ → Type 0
  IsHeld v target = (target ≤ v.version_counter) × (v.version_counter < target + length v.versions)

  -- What a rollback to a held version leaves.
  pub record RolledBack (v : VersionedModule T) (target : ℕ) (r : VersionedModule T × Bool)
      : Type 0 where
    pub restored : ModuleVersion T
    pub its_place :
        get_elem? v.versions (target + length v.versions - suc v.version_counter) ≡ some restored
    pub its_number : restored.version ≡ target
    pub succeeded : r.1 ≡ true
    pub loaded : load r.0 ≡ restored.module_data
    pub counted : current_version r.0 ≡ suc v.version_counter

  found_at :
      (v : VersionedModule T) (target : ℕ) (h : IsValid v)
      → find_version target v.versions ≡ (
          if ltb target h.first
          then none
          else get_elem? v.versions (target + length v.versions - suc v.version_counter))
  found_at v target h = rw (place) (find_version-Numbered target h.first v.versions h.ends.numbered)
    where
      place : target + length v.versions - suc v.version_counter ≡ target - h.first
      place = omega (arith, h.numbers)

  -- In a valid module whose counter does not wrap, a rollback to a version that the history holds
  -- succeeds: it loads the module of the version of that number, which stands at its place in the
  -- history, under the next number. A rollback to any other version is refused and changes nothing.
  pub rollback_lem :
      (v : VersionedModule T) (target now : ℕ)
      → IsValid v
      → v.version_counter + 1 < u64
      → (IsHeld v target × RolledBack v target (rollback target now v))
        ⊎ ((¬ IsHeld v target) × (rollback target now v ≡ (v, false)))
  unfolding rollback restore load current_version swap
  rollback_lem v target now h fits = elim (Bool-cases (ltb target h.first)) [
    | inl old ↦ inr (
      λ held. omega (arith, ltb→lt target h.first old, h.numbers, held.1),
      rw (found_at v target h) (rw old refl),
    )
    | inr kept ↦
        elim (Option-cases
          (get_elem? v.versions (target + length v.versions - suc v.version_counter))) [
            | inl past ↦
                inr (
                  λ held. cc (past, missing held),
                  rw (found_at v target h) (rw kept (rw past refl)),
                )
            | inr (e, there) ↦ inl (
              held_if (at_least kept) (rw there refl),
              record {
                restored = e;
                its_place = there;
                its_number = omega (
                  arith,
                  get_elem?-version h.first _ v.versions e h.ends.numbered there,
                  h.numbers,
                  at_least kept,
                );
                succeeded = rw (found_at v target h) (rw kept (rw there refl));
                loaded = rw (found_at v target h) (rw kept (rw there refl));
                counted = rw (found_at v target h) (rw kept (rw there no_wrap));
              },
            )
          ]
  ]
    where
      no_wrap : (v.version_counter + 1) % u64 ≡ suc v.version_counter
      no_wrap = ground arith

      at_least : ltb target h.first ≡ false → h.first ≤ target
      at_least kept = ground arith

      missing :
          IsHeld v target
          → is_some (get_elem? v.versions (target + length v.versions - suc v.version_counter))
            ≡ true
      missing held = (get_elem?-is_some v.versions _).1 (omega (arith, held.0, held.1))

      held_if :
          h.first ≤ target
          → is_some (get_elem? v.versions (target + length v.versions - suc v.version_counter))
            ≡ true
          → IsHeld v target
      held_if le there = (
        omega (arith, (get_elem?-is_some v.versions _).0 there, h.numbers),
        omega (arith, h.numbers),
      )

  before_last :
      (es : List (ModuleVersion T)) (d e : ModuleVersion T)
      → last? es ≡ some d
      → get_elem? (es ++ e ∷ []) (length (es ++ e ∷ []) - 2) ≡ some d
  before_last [] d e h = cc
  before_last (a ∷ []) d e h = h
  before_last (a ∷ b ∷ es) d e h = rw shorter (before_last (b ∷ es) d e h)
    where
      shorter : length (a ∷ b ∷ es ++ e ∷ []) - 2 ≡ suc (length (b ∷ es ++ e ∷ []) - 2)
      shorter = omega (arith, length-append es (e ∷ []))

  get_elem?-drop :
      (es : List (ModuleVersion T)) (i : ℕ) → get_elem? (drop 1 es) i ≡ get_elem? es (suc i)
  get_elem?-drop [] i = refl
  get_elem?-drop (e ∷ es) i = refl

  length-drop_one : (es : List (ModuleVersion T)) → length (drop 1 es) ≡ length es - 1
  length-drop_one [] = omega arith
  length-drop_one (e ∷ es) = omega arith

  before_pushed :
      (m : ℕ) (es : List (ModuleVersion T)) (d e : ModuleVersion T)
      → 2 ≤ m
      → 1 ≤ length es
      → last? es ≡ some d
      → (get_elem? (push_version m e es) (length (push_version m e es) - 2) ≡ some d)
        × (leb 2 (length (push_version m e es)) ≡ true)
  unfolding push_version
  before_pushed m es d e two some_there h = elim (Bool-cases (ltb m (length (es ++ e ∷ [])))) [
    | inl full ↦ rw full (
      rw (get_elem?-drop (es ++ e ∷ []), one_less (ltb→lt m _ full)) (before_last es d e h),
      le→leb 2 _ (omega (arith, length-drop_one (es ++ e ∷ []), ltb→lt m _ full)),
    )
    | inr room ↦
        rw room (before_last es d e h, le→leb 2 _ (omega (arith, length-append es (e ∷ []))))
  ]
    where
      one_less :
          m < length (es ++ e ∷ [])
          → suc (length (drop 1 (es ++ e ∷ [])) - 2) ≡ length (es ++ e ∷ []) - 2
      one_less full = omega (arith, length-drop_one (es ++ e ∷ []))

  -- In a valid module that keeps at least two versions and whose counter does not wrap, a swap
  -- loads the new module, and a rollback to the previous version after it succeeds and loads what
  -- was loaded before the swap, under the second next number.
  swap_then_rollback_previous :
      (v : VersionedModule T) (m : T) (now later : ℕ)
      → IsValid v
      → 2 ≤ v.max_history
      → v.version_counter + 2 < u64
      → let v1 = (swap m now v).0 in
        let (v2, done) = rollback_previous later v1 in
        (load v1 ≡ m)
        × (done ≡ true)
        × (load v2 ≡ load v)
        × (current_version v2 ≡ suc (suc v.version_counter))
  unfolding swap rollback_previous restore load current_version
  swap_then_rollback_previous v m now later h two fits =
      let (place, enough) =
        before_pushed v.max_history v.versions h.newest pushed two h.nonempty h.ends.newest in
      (
        refl,
        rw enough (rw place refl),
        rw enough (rw place h.is_current),
        rw enough (rw place counts),
      )
    where
      pushed : ModuleVersion T
      pushed = record { version = (v.version_counter + 1) % u64; module_data = m; loaded_at = now }

      counts : ((v.version_counter + 1) % u64 + 1) % u64 ≡ suc (suc v.version_counter)
      counts = ground arith
