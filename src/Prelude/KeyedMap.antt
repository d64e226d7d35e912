-- ===== src/Prelude/KeyedMap.antt =====
-- Maps keyed by texts, behind the operations that the code uses (`insert`, `get`, `remove`, `len`,
-- `retain`), and an association list that meets their laws.
pub mod Listing
use Prim.Native.Nat.{ℕ, suc}
use Prim.Native.String.{String}
use mathlib.Core.Path.{◌≡◌, refl}
use mathlib.Core.Bool.{Bool}
use mathlib.Core.Logic.{inl, inr}
use mathlib.Core.List.{List, [], ◌∷◌}
use mathlib.Core.Option.{Option, none, some}
use native.Mathlib.Omega.{arith}
use claw_kernel.Prelude.Tests.{if◌then◌else◌, is_some, Bool-cases}
use claw_kernel.Prelude.Texts.{str_eq, str_eq_iff}

-- What the code relies on of a hash map from texts to `V`, with `M` the map's type.
pub record KeyedMap (M V : Type 0) : Type 0 where
  pub empty : M
  pub get : String → M → Option V
  pub insert : String → V → M → M
  pub remove : String → M → M
  pub len : M → ℕ
  pub retain : (V → Bool) → M → M
  pub get-empty : (j : String) → get j empty ≡ none
  pub get-insert :
      (k j : String) (v : V) (m : M)
      → get j (insert k v m) ≡ (if str_eq k j then some v else get j m)
  pub get-remove :
      (k j : String) (m : M) → get j (remove k m) ≡ (if str_eq k j then none else get j m)
  pub get-retain :
      (p : V → Bool) (j : String) (m : M)
      → get j (retain p m) ≡ elim (get j m) [ none ↦ none | some v ↦ if p v then some v else none ]
  pub len-empty : len empty ≡ 0
  pub len-insert :
      (k : String) (v : V) (m : M)
      → len (insert k v m) ≡ (if is_some (get k m) then len m else suc (len m))
  pub len-remove :
      (k : String) (m : M)
      → len m ≡ (if is_some (get k m) then suc (len (remove k m)) else len (remove k m))

-- An association list in which an earlier entry hides the later ones of its key.
module _ {V : Type 0} where
  abbrev pub lookup : String → List (String × V) → Option V
  lookup k [] = none
  lookup k ((j, v) ∷ m) = if str_eq j k then some v else lookup k m

  abbrev pub erase : String → List (String × V) → List (String × V)
  erase k [] = []
  erase k ((j, v) ∷ m) = let rest = erase k m in if str_eq j k then rest else (j, v) ∷ rest

  abbrev pub keep : (V → Bool) → List (String × V) → List (String × V)
  keep p [] = []
  keep p ((j, v) ∷ m) = let rest = keep p m in if p v then (j, v) ∷ rest else erase j rest

  abbrev pub size : List (String × V) → ℕ
  size [] = 0
  size ((j, v) ∷ m) = let rest = size m in if is_some (lookup j m) then rest else suc rest

  pub lookup-erase :
      (k j : String) (m : List (String × V))
      → lookup j (erase k m) ≡ (if str_eq k j then none else lookup j m)
  lookup-erase k j [] = ground arith
  lookup-erase k j ((i, v) ∷ m) =
      ground (arith, str_eq_iff k j, str_eq_iff i k, str_eq_iff i j, lookup-erase k j m)

  pub lookup-keep :
      (p : V → Bool) (j : String) (m : List (String × V))
      → lookup j (keep p m)
        ≡ elim (lookup j m) [ none ↦ none | some v ↦ if p v then some v else none ]
  lookup-keep p j [] = refl
  lookup-keep p j ((i, v) ∷ m) = elim (Bool-cases (p v)) [
    | inl e ↦ elim (Bool-cases (str_eq i j)) [
      | inl h ↦ rw e (rw h (rw e))
      | inr h ↦ rw e (rw h (lookup-keep p j m))
    ]
    | inr e ↦ elim (Bool-cases (str_eq i j)) [
      | inl h ↦ rw e (rw (lookup-erase i j (keep p m)) (rw h (rw e)))
      | inr h ↦ rw e (rw (lookup-erase i j (keep p m)) (rw h (lookup-keep p j m)))
    ]
  ]

  pub size-erase :
      (k : String) (m : List (String × V))
      → size m ≡ (if is_some (lookup k m) then suc (size (erase k m)) else size (erase k m))
  size-erase k [] = refl
  size-erase k ((i, v) ∷ m) =
      ground (arith, str_eq_iff i k, lookup-erase k i m, str_eq_iff k i, size-erase k m)

  abbrev pub assoc_map : KeyedMap (List (String × V)) V
  assoc_map = record {
    empty = [];
    get = lookup;
    insert = λ k v m. (k, v) ∷ m;
    remove = erase;
    len = size;
    retain = keep;
    get-empty = λ j. refl;
    get-insert = λ k j v m. refl;
    get-remove = lookup-erase;
    get-retain = lookup-keep;
    len-empty = refl;
    len-insert = λ k v m. refl;
    len-remove = size-erase;
  }
