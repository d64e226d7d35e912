-- ===== src/Tools/Versioned/History.antt =====
-- The numbers of the versions in a history, and what the operations on it keep.
use claw_kernel.Prelude.{
  ℕ, zero, suc, ◌+◌, ◌-◌, ◌≤◌, ◌<◌, ◌≡◌, refl, true, false, none, some, List, [], ◌∷◌, ◌++◌,
  if◌then◌else◌, ltb, ◌==◌, length, drop, get_elem?, last?, last?-append, length-append, arith,
  Bool-cases, inl, inr, is_some, ◌↔◌,
}
use claw_kernel.Tools.Versioned.{ModuleVersion, push_version, find_version, trim}

module _ {T : Type 0} where
  -- The versions are numbered one after the other, from a first number on.
  abbrev pub Numbered : ℕ → List (ModuleVersion T) → Type 0
  Numbered k [] = Unit {0}
  Numbered k (e ∷ es) = (e.version ≡ k) × Numbered (suc k) es

  Numbered-append :
      (k : ℕ) (es : List (ModuleVersion T)) (e : ModuleVersion T)
      → Numbered k es
      → e.version ≡ k + length es
      → Numbered k (es ++ e ∷ [])
  Numbered-append k [] e h n = (omega (arith, n), tt)
  Numbered-append k (d ∷ es) e (h, hs) n = (h, Numbered-append (suc k) es e hs (omega (arith, n)))

  -- A history that ends with a given version, with its first number.
  pub record Ends (first : ℕ) (e : ModuleVersion T) (es : List (ModuleVersion T)) : Type 0 where
    pub numbered : Numbered first es
    pub newest : last? es ≡ some e

  drop_first :
      (first : ℕ) (e : ModuleVersion T) (es : List (ModuleVersion T))
      → 1 < length es
      → Ends first e es
      → Ends (suc first) e (drop 1 es)
  drop_first first e [] two h = absurd (omega arith)
  drop_first first e (a ∷ []) two h = absurd (omega arith)
  drop_first first e (a ∷ b ∷ es) two h = record { numbered = h.numbered.1; newest = h.newest }

  length-drop_first :
      (es : List (ModuleVersion T)) → 1 ≤ length es → suc (length (drop 1 es)) ≡ length es
  length-drop_first [] h = absurd (omega arith)
  length-drop_first (e ∷ es) h = refl

  appended :
      (first : ℕ) (e : ModuleVersion T) (es : List (ModuleVersion T))
      → Numbered first es
      → e.version ≡ first + length es
      → Ends first e (es ++ e ∷ [])
  appended first e es h n = record {
    numbered = Numbered-append first es e h n;
    newest = last?-append es e;
  }

  pub push_version-Ends :
      (m first : ℕ) (e : ModuleVersion T) (es : List (ModuleVersion T))
      → 1 ≤ m
      → length es ≤ m
      → 1 ≤ length es
      → Numbered first es
      → e.version ≡ first + length es
      → (first' : ℕ) × Ends first' e (push_version m e es)
        × (first' + length (push_version m e es) ≡ suc (first + length es))
        × (length (push_version m e es) ≤ m)
        × (1 ≤ length (push_version m e es))
  unfolding push_version
  push_version-Ends m first e es pos le some_there h n =
      elim (Bool-cases (ltb m (length (es ++ e ∷ [])))) [
        | inl full ↦ rw full (
          suc first,
          drop_first first e (es ++ e ∷ []) (omega (arith, grown)) (appended first e es h n),
          omega (arith, grown, dropped),
          omega (arith, grown, dropped),
          omega (arith, grown, dropped),
        )
        | inr room ↦ rw room (
          first,
          appended first e es h n,
          omega (arith, grown),
          ground (arith, grown),
          omega (arith, grown),
        )
      ]
    where
      grown : length (es ++ e ∷ []) ≡ suc (length es)
      grown = omega (arith, length-append es (e ∷ []))

      dropped : suc (length (drop 1 (es ++ e ∷ []))) ≡ length (es ++ e ∷ [])
      dropped = length-drop_first (es ++ e ∷ []) (omega (arith, grown))

  pub trim-Ends :
      (m first : ℕ) (e : ModuleVersion T) (es : List (ModuleVersion T))
      → 1 ≤ m
      → Ends first e es
      → (first' : ℕ) × Ends first' e (trim m es)
        × (first' + length (trim m es) ≡ first + length es)
        × (length (trim m es) ≤ m)
        × (1 ≤ length (trim m es))
  unfolding trim
  trim-Ends m first e [] pos h = absurd (cc (h.newest))
  trim-Ends m first e (a ∷ []) pos h = rw one (first, h, refl, omega arith, omega arith)
    where
      one : ltb m (length (a ∷ [])) ≡ false
      one = ground arith
  trim-Ends m first e (a ∷ b ∷ es) pos h = elim (Bool-cases (ltb m (length (a ∷ b ∷ es)))) [
    | inl full ↦
        let (first', ends, sum, le, ge) =
          trim-Ends m (suc first) e (b ∷ es) pos
            (record { numbered = h.numbered.1; newest = h.newest }) in
        rw full (first', ends, omega (arith, sum), le, ge)
    | inr room ↦ rw room (first, h, refl, ground arith, omega arith)
  ]

  by_place :
      (target k n : ℕ) (e : ModuleVersion T) (es : List (ModuleVersion T))
      → n ≡ k
      → (if n == target
          then some e
          else if ltb target (suc k)
          then none
          else get_elem? es (target - suc k))
        ≡ (if ltb target k then none else get_elem? (e ∷ es) (target - k))
  by_place target k n e es h = elim (Bool-cases (n == target)) [
    | inl same ↦ rw (same, not_below (ground arith), zero_place (ground arith))
    | inr other ↦ elim (Bool-cases (ltb target k)) [
      | inl below ↦ rw (other, below, still_below (ground arith))
      | inr above ↦ rw (other, above, not_below_next (ground arith), next_place (ground arith))
    ]
  ]
    where
      not_below : target ≡ k → ltb target k ≡ false
      not_below h = ground arith

      zero_place : target ≡ k → target - k ≡ 0
      zero_place h = omega arith

      still_below : target < k → ltb target (suc k) ≡ true
      still_below h = ground arith

      not_below_next : k < target → ltb target (suc k) ≡ false
      not_below_next h = ground arith

      next_place : k < target → target - k ≡ suc (target - suc k)
      next_place h = omega arith

  -- A version is found exactly by its place after the first.
  pub find_version-Numbered :
      (target k : ℕ) (es : List (ModuleVersion T))
      → Numbered k es
      → find_version target es ≡ (if ltb target k then none else get_elem? es (target - k))
  unfolding find_version
  find_version-Numbered target k [] h = ground arith
  find_version-Numbered target k (e ∷ es) (h, hs) =
      rw (find_version-Numbered target (suc k) es hs) (by_place target k e.version e es h)

  pub get_elem?-is_some :
      (es : List (ModuleVersion T)) (i : ℕ) → (is_some (get_elem? es i) ≡ true) ↔ (i < length es)
  get_elem?-is_some [] i = (λ h. cc, λ h. absurd (omega arith))
  get_elem?-is_some (e ∷ es) zero = (λ h. omega arith, λ h. refl)
  get_elem?-is_some (e ∷ es) (suc i) =
      let (there, back) = get_elem?-is_some es i in
      (λ h. omega (arith, there h), λ h. back (omega arith))
