-- ===== src/Prelude/KeyedMap/Listing.antt =====
-- The entries of a map as a list, in some order.
use Prim.Native.String.{String}
use mathlib.Core.Path.{◌≡◌, sym, ap, ◌∙◌}
use mathlib.Core.Logic.{◌≢◌, ◌↔◌, inl, inr}
use mathlib.Core.Bool.{false}
use mathlib.Core.List.{List, [], ◌∷◌, Memᴰ}
use mathlib.Core.List.Memᴰ.{head, tail}
use mathlib.Core.Option.{some}
use native.Mathlib.Omega.{arith}
use claw_kernel.Prelude.Tests.{Bool-cases, some-inj}
use claw_kernel.Prelude.Texts.{str_eq, str_eq_iff}
use claw_kernel.Prelude.KeyedMap.{KeyedMap, lookup, erase, assoc_map}

-- No key stands twice.
abbrev pub NoKeyTwice : {V : Type 0} → List (String × V) → Type 0
NoKeyTwice [] = Unit {0}
NoKeyTwice {V} (x ∷ xs) = ((e : String × V) → Memᴰ e xs → e.0 ≢ x.0) × NoKeyTwice xs

-- What an iteration over the map gives.
pub record Lists {M V : Type 0} (ops : KeyedMap M V) (entries : M → List (String × V))
    : Type 0 where
  pub listed : (m : M) (k : String) (v : V) → Memᴰ (k, v) (entries m) ↔ (ops.get k m ≡ some v)
  pub once : (m : M) → NoKeyTwice (entries m)

differs : (i j : String) → str_eq i j ≡ false → i ≢ j
differs i j other same = cc (other, (str_eq_iff i j).1 same)

module _ {V : Type 0} where
  abbrev pub listing : List (String × V) → List (String × V)
  listing [] = []
  listing ((k, v) ∷ m) = (k, v) ∷ erase k (listing m)

  erased :
      (e : String × V) (k : String) (xs : List (String × V))
      → Memᴰ e (erase k xs)
      → Memᴰ e xs × (e.0 ≢ k)
  erased e k [] m = elim m [ ]
  erased e k ((j, w) ∷ xs) m = elim (Bool-cases (str_eq j k)) [
    | inl same ↦ let (i, ne) = erased e k xs (rw same at m) in (tail i, ne)
    | inr other ↦ elim (rw other at m) [
      | head h ↦ (head h, λ same. differs j k other (sym (ap (λ x. x.0) h) ∙ same))
      | tail m ↦ (let (i, ne) = erased e k xs m in (tail i, ne))
    ]
  ]

  kept :
      (e : String × V) (k : String) (xs : List (String × V))
      → Memᴰ e xs
      → e.0 ≢ k
      → Memᴰ e (erase k xs)
  kept e k [] m ne = elim m [ ]
  kept e k ((j, w) ∷ xs) m ne = elim (Bool-cases (str_eq j k)) [
    | inl same ↦ rw same (elim m [
      | head h ↦ absurd (ne (ap (λ x. x.0) h ∙ (str_eq_iff j k).0 same))
      | tail i ↦ kept e k xs i ne
    ])
    | inr other ↦ rw other (elim m [ head h ↦ head h | tail i ↦ tail (kept e k xs i ne) ])
  ]

  erase-NoKeyTwice : (k : String) (xs : List (String × V)) → NoKeyTwice xs → NoKeyTwice (erase k xs)
  erase-NoKeyTwice k [] u = u
  erase-NoKeyTwice k ((j, w) ∷ xs) (first, rest) = elim (Bool-cases (str_eq j k)) [
    | inl same ↦ rw same (erase-NoKeyTwice k xs rest)
    | inr other ↦ rw other (λ e m. first e (erased e k xs m).0, erase-NoKeyTwice k xs rest)
  ]

  listing-NoKeyTwice : (m : List (String × V)) → NoKeyTwice (listing m)
  listing-NoKeyTwice [] = tt
  listing-NoKeyTwice ((k, v) ∷ m) =
      (λ e i. (erased e k (listing m) i).1, erase-NoKeyTwice k (listing m) (listing-NoKeyTwice m))

  mem-listing :
      (m : List (String × V)) (k : String) (v : V) → Memᴰ (k, v) (listing m) ↔ (lookup k m ≡ some v)
  mem-listing [] k v = (λ i. elim i [ ], λ h. absurd (ground arith))
  mem-listing ((j, w) ∷ m) k v = elim (Bool-cases (str_eq j k)) [
    | inl same ↦ rw same (
      λ i. elim i [
        | head h ↦ ap (λ x. some x.1) (sym h)
        | tail i ↦ absurd ((erased (k, v) j (listing m) i).1 (sym ((str_eq_iff j k).0 same)))
      ],
      λ h. head (λ i. (sym ((str_eq_iff j k).0 same) i, sym (some-inj h) i)),
    )
    | inr other ↦ rw other (
      λ i. elim i [
        | head h ↦ absurd (differs j k other (sym (ap (λ x. x.0) h)))
        | tail i ↦ (mem-listing m k v).0 (erased (k, v) j (listing m) i).0
      ],
      λ h. tail (
          kept (k, v) j (listing m) ((mem-listing m k v).1 h)
            (λ same. differs j k other (sym same))),
    )
  ]

  pub listing-Lists : Lists (assoc_map {V = V}) listing
  listing-Lists = record { listed = mem-listing; once = listing-NoKeyTwice }
