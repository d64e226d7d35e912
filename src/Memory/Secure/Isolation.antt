-- ===== src/Memory/Secure/Isolation.antt =====
-- What an isolated store gives of the wrapped one.
use claw_kernel.Prelude.{
  ℕ, ◌≡◌, sym, subst, ◌↔◌, true, false, List, [], ◌∷◌, String, Result, ok, err, str_eq, str_eq_iff,
  Bool-cases, inl, inr, arith,
}
use mathlib.Core.List.{Memᴰ}
use mathlib.Core.List.Memᴰ.{head, tail}
use claw_kernel.Memory.{MemoryItem, MemoryError}
use claw_kernel.Memory.Secure.{
  SecureMemoryStore, retain_namespace, filter_found, semantic_search, keyword_search, hybrid_search,
}

-- The second result is the first with exactly the items of the namespace `own`, or the same error,
-- and the same state.
pub data OwnOf {F S : Type 0} (own : String)
    : Result MemoryError (List (MemoryItem F)) × S
      → Result MemoryError (List (MemoryItem F)) × S
      → Type 0 where
  own_items :
      (found kept : List (MemoryItem F)) (s : S)
      → ((x : MemoryItem F) → Memᴰ x kept ↔ (Memᴰ x found × (x.namespace ≡ own)))
      → OwnOf own (ok found, s) (ok kept, s)
  same_error : (e : MemoryError) (s : S) → OwnOf own (err e, s) (err e, s)

module _ {F : Type 0} (own : String) where
  mem-retain_namespace :
      (x : MemoryItem F) (xs : List (MemoryItem F))
      → Memᴰ x (retain_namespace own xs) ↔ (Memᴰ x xs × (x.namespace ≡ own))
  unfolding retain_namespace
  mem-retain_namespace x [] = (λ m. elim m [ ], λ (m, e). elim m [ ])
  mem-retain_namespace x (y ∷ ys) = elim (Bool-cases (str_eq y.namespace own)) [
    | inl same ↦ rw same (
      λ m. elim m [
        | head h ↦
            (head h, subst (λ z. z.namespace ≡ own) (sym h) ((str_eq_iff y.namespace own).0 same))
        | tail m ↦ (let (m', e) = (mem-retain_namespace x ys).0 m in (tail m', e))
      ],
      λ (m, e). elim m [ head h ↦ head h | tail m ↦ tail ((mem-retain_namespace x ys).1 (m, e)) ],
    )
    | inr other ↦ rw other (
      λ m. let (m', e) = (mem-retain_namespace x ys).0 m in (tail m', e),
      λ (m, e). elim m [
        | head h ↦ absurd (differs other (subst (λ z. z.namespace ≡ own) h e))
        | tail m ↦ (mem-retain_namespace x ys).1 (m, e)
      ],
    )
  ]
    where
      differs : str_eq y.namespace own ≡ false → y.namespace ≡ own → ⊥
      differs other e = absurd (ground (arith, other, (str_eq_iff y.namespace own).1 e))

module _ {F S : Type 0} (m : SecureMemoryStore F S) where
  filter_found-OwnOf :
      (found : Result MemoryError (List (MemoryItem F)) × S)
      → m.config.namespace_isolation ≡ true
      → OwnOf m.namespace found (filter_found m found)
  unfolding filter_found
  filter_found-OwnOf (ok xs, s) isolated =
      rw isolated (own_items xs _ s (λ x. mem-retain_namespace m.namespace x xs))
  filter_found-OwnOf (err e, s) isolated = rw isolated (same_error e s)

  -- The three searches of an isolated store give exactly those items that the wrapped store finds
  -- whose namespace is the own one, or its error, and its state.
  pub searches-OwnOf :
      (query : String) (vector : List F) (top_k : ℕ) (alpha : F) (s : S)
      → m.config.namespace_isolation ≡ true
      → OwnOf m.namespace
          (m.inner.semantic_search vector top_k s)
          (semantic_search m vector top_k s)
        × OwnOf m.namespace (m.inner.keyword_search query top_k s) (keyword_search m query top_k s)
        × OwnOf m.namespace
            (m.inner.hybrid_search query vector top_k alpha s)
            (hybrid_search m query vector top_k alpha s)
  unfolding semantic_search keyword_search hybrid_search
  searches-OwnOf query vector top_k alpha s isolated =
      (filter_found-OwnOf _ isolated, filter_found-OwnOf _ isolated, filter_found-OwnOf _ isolated)
