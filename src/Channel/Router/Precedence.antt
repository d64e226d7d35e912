-- ===== src/Channel/Router/Precedence.antt =====
-- Which agents `route` and `broadcast_route` of crates/claw-channel/src/router.rs reach.
use claw_kernel.Prelude.{
  ◌≡◌, refl, inl, inr, ◌⊎◌, ◌↔◌, true, false, Option, none, some, List, [], ◌∷◌, String,
  str_eq_refl, str_eq_iff, last?, arith, ap,
}
use claw_kernel.Channel.{ChannelMessage}
use claw_kernel.Channel.Router.Agents.{
  head?, or_else, nonempty, add_all, NoRepeat, finish, contains-add_all, add_all-NoRepeat,
  head?-add_all,
}
use claw_kernel.Channel.Router.Matching.{
  defaults, explicit, route_loop_lem, broadcast_loop_lem, AnyFires, FirstFires,
  contains_explicit→AnyFires, AnyFires→contains_explicit, head_explicit→FirstFires,
  FirstFires→head_explicit,
}
use claw_kernel.Channel.Router.{
  RegexOps, RoutingRule, ChannelRouter, contains, route, broadcast_route,
}

add_all_nil : add_all [] [] ≡ []
unfolding add_all
add_all_nil = refl

finish-NoRepeat :
    (xs : List String) (o : Option String) → NoRepeat (finish (add_all [] xs) (nonempty xs) o)
finish-NoRepeat [] none = rw add_all_nil tt
finish-NoRepeat [] (some a) = rw add_all_nil (refl, tt)
finish-NoRepeat (x ∷ xs) o = add_all-NoRepeat [] (x ∷ xs) tt

head_agrees :
    (xs : List String) (o : Option String)
    → head? (finish (add_all [] xs) (nonempty xs) o) ≡ or_else (head? xs) o
head_agrees [] none = rw add_all_nil
head_agrees [] (some a) = rw add_all_nil
head_agrees (x ∷ xs) o = head?-add_all (x ∷ xs)

or_else-none : (o : Option String) → or_else o none ≡ o
or_else-none none = refl
or_else-none (some a) = refl

only_default :
    (o : Option String) (a : String) → (contains (finish [] false o) a ≡ true) ↔ (o ≡ some a)
only_default none a = (λ h. cc, λ h. cc)
only_default (some b) a = ground (arith, str_eq_iff b a)

module _ {R : Type 0} (regex : RegexOps R) (msg : ChannelMessage)
    (rules : List (RoutingRule R)) where
  -- The agent is that of the last default rule, and no explicit rule fires for anybody.
  abbrev pub FallsBack : String → Type 0
  FallsBack a = ((b : String) → ¬ AnyFires regex msg rules b) × (last? (defaults rules) ≡ some a)

  fires_of_nonempty :
      (xs : List String)
      → explicit regex msg rules ≡ xs
      → nonempty xs ≡ true
      → (b : String) × AnyFires regex msg rules b
  fires_of_nonempty [] e h = cc
  fires_of_nonempty (b ∷ xs) e h =
      (b, contains_explicit→AnyFires regex msg rules b (rw e (ground (arith, str_eq_refl b))))

  nothing_fires : explicit regex msg rules ≡ [] → (b : String) → ¬ AnyFires regex msg rules b
  nothing_fires e b f =
      cc (AnyFires→contains_explicit regex msg rules b f, ap (λ l. contains l b) e)

  route_loop_iff :
      (xs : List String) (a : String)
      → explicit regex msg rules ≡ xs
      → (or_else (head? xs) (or_else (last? (defaults rules)) none) ≡ some a)
        ↔ (FirstFires regex msg rules a ⊎ FallsBack a)
  route_loop_iff [] a e = (
    λ h. inr (nothing_fires e, rw (or_else-none (last? (defaults rules))) at h),
    elim [
      | inl f ↦ absurd (cc (FirstFires→head_explicit regex msg rules a f, ap head? e))
      | inr (_, l) ↦ rw (or_else-none (last? (defaults rules))) l
    ],
  )
  route_loop_iff (x ∷ xs) a e = (
    λ h. inl (head_explicit→FirstFires regex msg rules a (rw e h)),
    elim [
      | inl f ↦ rw e at (FirstFires→head_explicit regex msg rules a f)
      | inr (n, l) ↦
          absurd (n x (contains_explicit→AnyFires regex msg rules x (rw e (rw (str_eq_refl x)))))
    ],
  )

  broadcast_loop_iff :
      (xs : List String) (a : String)
      → explicit regex msg rules ≡ xs
      → (contains (finish (add_all [] xs) (nonempty xs) (or_else (last? (defaults rules)) none)) a
          ≡ true)
        ↔ (AnyFires regex msg rules a ⊎ FallsBack a)
  broadcast_loop_iff [] a e =
      rw (or_else-none (last? (defaults rules)), add_all_nil)
        (
          λ h. inr (nothing_fires e, (only_default (last? (defaults rules)) a).0 h),
          elim [
            | inl f ↦
                absurd
                  (cc (AnyFires→contains_explicit regex msg rules a f, ap (λ l. contains l a) e))
            | inr (_, l) ↦ (only_default (last? (defaults rules)) a).1 l
          ],
        )
  broadcast_loop_iff (x ∷ xs) a e = (
    λ h. inl (
        contains_explicit→AnyFires regex msg rules a
          (rw e (rw (contains-add_all [] (x ∷ xs) a) at h))),
    elim [
      | inl f ↦
          rw (contains-add_all [] (x ∷ xs) a)
            (rw e at (AnyFires→contains_explicit regex msg rules a f))
      | inr (n, l) ↦
          absurd (n x (contains_explicit→AnyFires regex msg rules x (rw e (rw (str_eq_refl x)))))
    ],
  )

module _ {R M : Type 0} (regex : RegexOps R) (r : ChannelRouter R M) (msg : ChannelMessage) where
  -- With the lock on the rules intact, `route` gives an agent exactly when it is that of the first
  -- explicit rule that fires, or when no explicit rule fires and it is that of the last default
  -- rule, wherever the default rules stand.
  pub route_precedence :
      (a : String)
      → r.poisoned ≡ false
      → (route regex r msg ≡ some a)
        ↔ (FirstFires regex msg r.rules a ⊎ FallsBack regex msg r.rules a)
  unfolding route
  route_precedence a healthy =
      rw (healthy, route_loop_lem regex msg none r.rules)
        (route_loop_iff regex msg r.rules (explicit regex msg r.rules) a refl)

  -- With the lock intact, `broadcast_route` names no agent twice, begins with the agent that
  -- `route` gives, if any, and names exactly the agents of the explicit rules that fire, or that of
  -- the last default rule if no explicit rule fires.
  pub broadcast_route_reaches :
      r.poisoned ≡ false
      → let agents = broadcast_route regex r msg in
        NoRepeat agents
        × (head? agents ≡ route regex r msg)
        × ((a : String)
            → (contains agents a ≡ true)
              ↔ (AnyFires regex msg r.rules a ⊎ FallsBack regex msg r.rules a))
  unfolding route broadcast_route
  broadcast_route_reaches healthy =
      rw
        (
          healthy,
          route_loop_lem regex msg none r.rules,
          broadcast_loop_lem regex msg [] false none r.rules,
        )
        (
          finish-NoRepeat (explicit regex msg r.rules) _,
          head_agrees (explicit regex msg r.rules) _,
          λ a. broadcast_loop_iff regex msg r.rules (explicit regex msg r.rules) a refl,
        )
