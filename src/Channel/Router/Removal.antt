-- ===== src/Channel/Router/Removal.antt =====
-- What `remove_rules_for_agent` of crates/claw-channel/src/router.rs leaves.
use claw_kernel.Prelude.{
  ℕ, suc, ◌+◌, ◌≡◌, refl, sym, ◌∙◌, ◌≢◌, inl, inr, ◌⊎◌, ◌↔◌, false, some, List, [], ◌∷◌, String,
  if◌then◌else◌, str_eq, str_eq_iff, last?, length, arith, Bool-cases,
}
use claw_kernel.Channel.{ChannelMessage}
use claw_kernel.Channel.Router.Matching.{Fires, AnyFires, FirstFires, defaults}
use claw_kernel.Channel.Router.Precedence.{route_precedence}
use claw_kernel.Channel.Router.{
  RegexOps, RoutingRule, by_channel_id, by_sender_id, by_pattern, default, ChannelRouter, target,
  retain_others, route, remove_rules_for_agent,
}

-- How many rules target the agent.
pub count_for : {R : Type 0} → String → List (RoutingRule R) → ℕ
count_for a [] = 0
count_for a (rule ∷ rules) =
    let rest = count_for a rules in if str_eq (target rule) a then suc rest else rest

-- The second list is the first without the rules that target the agent, in order.
pub data Without {R : Type 0} (a : String)
    : List (RoutingRule R) → List (RoutingRule R) → Type 0 where
  none_left : Without a [] []
  left_out :
      {rule : RoutingRule R} {rules kept : List (RoutingRule R)}
      → target rule ≡ a
      → Without a rules kept
      → Without a (rule ∷ rules) kept
  left_in :
      {rule : RoutingRule R} {rules kept : List (RoutingRule R)}
      → target rule ≢ a
      → Without a rules kept
      → Without a (rule ∷ rules) (rule ∷ kept)

retain_others-Without :
    {R : Type 0} (a : String) (rules : List (RoutingRule R))
    → Without a rules (retain_others a rules)
unfolding retain_others
retain_others-Without a [] = none_left
retain_others-Without a (rule ∷ rules) = elim (Bool-cases (str_eq (target rule) a)) [
  | inl same ↦
      rw same (left_out ((str_eq_iff (target rule) a).0 same) (retain_others-Without a rules))
  | inr other ↦ rw other (
      left_in (λ same. cc (other, (str_eq_iff (target rule) a).1 same))
        (retain_others-Without a rules))
]

length-retain_others :
    {R : Type 0} (a : String) (rules : List (RoutingRule R))
    → length (retain_others a rules) + count_for a rules ≡ length rules
unfolding retain_others count_for
length-retain_others a [] = omega arith
length-retain_others a (rule ∷ rules) = ground (arith, length-retain_others a rules)

module _ {R : Type 0} (regex : RegexOps R) (msg : ChannelMessage) where
  Fires-target : (rule : RoutingRule R) (b : String) → Fires regex msg rule b → target rule ≡ b
  Fires-target (by_channel_id c a) b f = f.1
  Fires-target (by_sender_id s a) b f = f.1
  Fires-target (by_pattern p a) b f = f.1
  Fires-target (default a) b f = absurd f

  AnyFires-retain_others :
      (a b : String) (rules : List (RoutingRule R))
      → AnyFires regex msg (retain_others a rules) b
      → (b ≢ a) × AnyFires regex msg rules b
  unfolding retain_others
  AnyFires-retain_others a b [] f = absurd f
  AnyFires-retain_others a b (rule ∷ rules) f = elim (Bool-cases (str_eq (target rule) a)) [
    | inl gone ↦ let (ne, any) = AnyFires-retain_others a b rules (rw gone at f) in (ne, inr any)
    | inr kept ↦ from_kept (AnyFires-retain_others a b rules) kept (rw kept at f)
  ]
    where
      from_kept :
          (AnyFires regex msg (retain_others a rules) b → (b ≢ a) × AnyFires regex msg rules b)
          → str_eq (target rule) a ≡ false
          → Fires regex msg rule b ⊎ AnyFires regex msg (retain_others a rules) b
          → (b ≢ a) × AnyFires regex msg (rule ∷ rules) b
      from_kept later kept (inl f) =
          (λ same. cc (kept, (str_eq_iff (target rule) a).1 (Fires-target rule b f ∙ same)), inl f)
      from_kept later kept (inr any) = let (ne, any') = later any in (ne, inr any')

  retain_others-AnyFires :
      (a b : String) (rules : List (RoutingRule R))
      → b ≢ a
      → AnyFires regex msg rules b
      → AnyFires regex msg (retain_others a rules) b
  unfolding retain_others
  retain_others-AnyFires a b [] ne f = absurd f
  retain_others-AnyFires a b (rule ∷ rules) ne (inl f) =
      elim (Bool-cases (str_eq (target rule) a)) [
        | inl gone ↦ absurd (ne (sym (Fires-target rule b f) ∙ (str_eq_iff (target rule) a).0 gone))
        | inr kept ↦ rw kept (inl f)
      ]
  retain_others-AnyFires a b (rule ∷ rules) ne (inr any) =
      elim (Bool-cases (str_eq (target rule) a)) [
        | inl gone ↦ rw gone (retain_others-AnyFires a b rules ne any)
        | inr kept ↦ rw kept (inr (retain_others-AnyFires a b rules ne any))
      ]

  FirstFires-AnyFires :
      (b : String) (rules : List (RoutingRule R))
      → FirstFires regex msg rules b
      → AnyFires regex msg rules b
  FirstFires-AnyFires b [] f = absurd f
  FirstFires-AnyFires b (rule ∷ rules) (inl f) = inl f
  FirstFires-AnyFires b (rule ∷ rules) (inr (_, f)) = inr (FirstFires-AnyFires b rules f)

abbrev Avoids : String → List String → Type 0
Avoids a [] = Unit {0}
Avoids a (x ∷ xs) = (x ≢ a) × Avoids a xs

last?-Avoids : (a b : String) (xs : List String) → Avoids a xs → last? xs ≡ some b → b ≢ a
last?-Avoids a b [] v e = cc
last?-Avoids a b (x ∷ []) v e = λ same. v.0 (cc)
last?-Avoids a b (x ∷ y ∷ xs) v e = last?-Avoids a b (y ∷ xs) v.1 e

defaults-Avoids :
    {R : Type 0} (a : String) (rules : List (RoutingRule R))
    → Avoids a (defaults (retain_others a rules))
unfolding retain_others
defaults-Avoids a [] = tt
defaults-Avoids a (default b ∷ rules) = elim (Bool-cases (str_eq b a)) [
  | inl gone ↦ rw gone (defaults-Avoids a rules)
  | inr kept ↦ rw kept (λ same. cc (kept, (str_eq_iff b a).1 same), defaults-Avoids a rules)
]
defaults-Avoids a (rule ∷ rules) = elim (Bool-cases (str_eq (target rule) a)) [
  | inl gone ↦ rw gone (defaults-Avoids a rules)
  | inr kept ↦ rw kept (defaults-Avoids a rules)
]

route_avoids :
    {R M : Type 0} (regex : RegexOps R) (q : ChannelRouter R M) (msg : ChannelMessage) (a : String)
    (rules : List (RoutingRule R))
    → q.poisoned ≡ false
    → q.rules ≡ retain_others a rules
    → route regex q msg ≢ some a
route_avoids regex q msg a rules healthy kept e =
    elim ((route_precedence regex q msg a healthy).0 e) [
      | inl f ↦
          (AnyFires-retain_others regex msg a a rules
              (rw kept at (FirstFires-AnyFires regex msg a q.rules f))).0
            refl
      | inr (_, l) ↦ last?-Avoids a a _ (defaults-Avoids a rules) (rw kept at l) refl
    ]

-- With the lock intact, removing the rules for an agent returns how many rules targeted it, and
-- leaves exactly the others, in their order; a rule fires for another agent exactly as before, none
-- fires for the removed one, and `route` never gives it again.
pub remove_rules_lem :
    {R M : Type 0} (regex : RegexOps R) (r : ChannelRouter R M) (a : String)
    → r.poisoned ≡ false
    → let (r', removed) = remove_rules_for_agent a r in
      (removed ≡ count_for a r.rules)
      × Without a r.rules r'.rules
      × (length r'.rules + removed ≡ length r.rules)
      × ((msg : ChannelMessage) (b : String)
          → AnyFires regex msg r'.rules b ↔ ((b ≢ a) × AnyFires regex msg r.rules b))
      × ((msg : ChannelMessage) → route regex r' msg ≢ some a)
unfolding remove_rules_for_agent
remove_rules_lem regex r a healthy = rw healthy (
  omega (arith, length-retain_others a r.rules),
  retain_others-Without a r.rules,
  omega (arith, length-retain_others a r.rules),
  λ msg b. (
    AnyFires-retain_others regex msg a b r.rules,
    λ (ne, any). retain_others-AnyFires regex msg a b r.rules ne any,
  ),
  λ msg e.
      route_avoids regex (record { rules = _; poisoned = false; channels = r.channels }) msg a
        r.rules refl refl e,
)
