-- ===== src/Prelude/Membership.antt =====
-- `iter().any` and `iter().all`, and what they say of the members of a list.
use mathlib.Core.Path.{◌≡◌, refl, sym, subst}
use mathlib.Core.Logic.{◌↔◌, inl, inr}
use mathlib.Core.Bool.{Bool, true, false, ◌&&◌, ◌||◌}
use mathlib.Core.List.{List, [], ◌∷◌, ◌++◌, Memᴰ}
use mathlib.Core.List.Memᴰ.{head, tail}
use native.Mathlib.Omega.{arith}
use claw_kernel.Prelude.Tests.{Bool-cases}

module _ {ℓ} {A : Type ℓ} where
  abbrev pub any : List A → (A → Bool) → Bool
  any [] p = false
  any (x ∷ xs) p = p x || any xs p

  abbrev pub all : List A → (A → Bool) → Bool
  all [] p = true
  all (x ∷ xs) p = p x && all xs p

  pub all-eq-true :
      (xs : List A) (p : A → Bool) → (all xs p ≡ true) ↔ ((x : A) → Memᴰ x xs → p x ≡ true)
  all-eq-true [] p = (λ h x m. elim m [ ], λ h. refl)
  all-eq-true (x ∷ xs) p = elim (Bool-cases (p x)) [
    | inl holds ↦ (
      λ h. by_cons holds ((all-eq-true xs p).0 (subst (λ b. (b && all xs p) ≡ true) holds h)),
      λ h. rw holds ((all-eq-true xs p).1 (λ y m. h y (tail m))),
    )
    | inr fails ↦ (
      λ h. absurd (ground (arith, h, fails)),
      λ h. absurd (ground (arith, h x (head refl), fails)),
    )
  ]
    where
      by_cons :
          p x ≡ true → ((y : A) → Memᴰ y xs → p y ≡ true) → (y : A) → Memᴰ y (x ∷ xs) → p y ≡ true
      by_cons holds rest y (head e) = subst (λ z. p z ≡ true) (sym e) holds
      by_cons holds rest y (tail m) = rest y m

  pub any-eq-true :
      (xs : List A) (p : A → Bool) → (any xs p ≡ true) ↔ ((x : A) × Memᴰ x xs × (p x ≡ true))
  any-eq-true [] p = (λ h. absurd (ground arith), λ (x, m, h). elim m [ ])
  any-eq-true (x ∷ xs) p = elim (Bool-cases (p x)) [
    | inl holds ↦ (λ h. (x, head refl, holds), λ h. rw holds)
    | inr fails ↦ (
      λ h.
          let (y, m, e) = (any-eq-true xs p).0 (subst (λ b. (b || any xs p) ≡ true) fails h) in
          (y, tail m, e),
      λ (y, m, e). by_cons fails y e (λ m'. (any-eq-true xs p).1 (y, m', e)) m,
    )
  ]
    where
      by_cons :
          p x ≡ false
          → (y : A) → p y ≡ true
          → (Memᴰ y xs → any xs p ≡ true)
          → Memᴰ y (x ∷ xs)
          → (p x || any xs p) ≡ true
      by_cons fails y e rest (head same) = absurd (grind (arith, e, fails, same))
      by_cons fails y e rest (tail m) = rw fails (rest m)

  pub any-append : (xs ys : List A) (p : A → Bool) → any (xs ++ ys) p ≡ (any xs p || any ys p)
  any-append [] ys p = refl
  any-append (x ∷ xs) ys p = ground (arith, any-append xs ys p)
