-- ===== src/Channel/Router/Matching.antt =====
-- Which agents a message reaches, against the list of the explicit rules that match it.
use claw_kernel.Prelude.{
  ◌≡◌, refl, ◌∙◌, inl, inr, ◌⊎◌, Bool, true, false, ◌||◌, Option, none, some, List, [], ◌∷◌, ◌++◌,
  String, if◌then◌else◌, str_eq, str_eq_iff, str_eq_refl, ap, last?, arith, Bool-cases,
  Option-cases,
}
use claw_kernel.Channel.{ChannelMessage}
use claw_kernel.Channel.Router.Agents.{
  head?, or_else, to_list, nonempty, last?-cons, add_all, finish, or_true,
}
use claw_kernel.Channel.Router.{
  RegexOps, RoutingRule, by_channel_id, by_sender_id, by_pattern, default, contains, sender_matches,
  matches, route_loop, broadcast_loop,
}

-- The agents of the default rules, in order.
abbrev pub defaults : {R : Type 0} → List (RoutingRule R) → List String
defaults [] = []
defaults (default a ∷ rules) = a ∷ defaults rules
defaults (_ ∷ rules) = defaults rules

-- When an explicit rule matches a message, and for which agent; a default rule is not explicit.
abbrev pub Fires : {R : Type 0} → RegexOps R → ChannelMessage → RoutingRule R → String → Type 0
Fires regex msg (by_channel_id c b) a = (msg.channel_id ≡ c) × (b ≡ a)
Fires regex msg (by_sender_id s b) a = (msg.sender_id ≡ some s) × (b ≡ a)
Fires regex msg (by_pattern p b) a = (regex.is_match p msg.content ≡ true) × (b ≡ a)
Fires regex msg (default b) a = ⊥

module _ {R : Type 0} (regex : RegexOps R) (msg : ChannelMessage) where
  -- The agents of the explicit rules that match the message, in the order of the rules.
  unfoldable pub explicit : List (RoutingRule R) → List String
  explicit [] = []
  explicit (default a ∷ rules) = explicit rules
  explicit (rule ∷ rules) = to_list (matches regex rule msg) ++ explicit rules

  pub route_loop_lem :
      (d : Option String) (rules : List (RoutingRule R))
      → route_loop regex msg d rules
        ≡ or_else (head? (explicit rules)) (or_else (last? (defaults rules)) d)
  unfolding route_loop explicit
  route_loop_lem d [] = refl
  route_loop_lem d (default a ∷ rules) =
      rw (last?-cons a (defaults rules) d) (route_loop_lem (some a) rules)
  route_loop_lem d (rule ∷ rules) = elim (Option-cases (matches regex rule msg)) [
    | inl e ↦ rw (e, route_loop) (route_loop_lem d rules)
    | inr (a, e) ↦ rw (e, route_loop)
  ]

  pub broadcast_loop_lem :
      (agents : List String) (has : Bool) (d : Option String) (rules : List (RoutingRule R))
      → broadcast_loop regex msg agents has d rules
        ≡ finish
            (add_all agents (explicit rules))
            (has || nonempty (explicit rules))
            (or_else (last? (defaults rules)) d)
  unfolding broadcast_loop explicit add_all
  broadcast_loop_lem agents true d [] = refl
  broadcast_loop_lem agents false none [] = refl
  broadcast_loop_lem agents false (some a) [] = refl
  broadcast_loop_lem agents has d (default a ∷ rules) =
      rw (last?-cons a (defaults rules) d) (broadcast_loop_lem agents has (some a) rules)
  broadcast_loop_lem agents has d (rule ∷ rules) = elim (Option-cases (matches regex rule msg)) [
    | inl e ↦ rw (e, broadcast_loop) (broadcast_loop_lem agents has d rules)
    | inr (a, e) ↦
        rw (e, broadcast_loop)
          (rw (or_true has) (
            broadcast_loop_lem (if contains agents a then agents else agents ++ a ∷ []) true d
              rules))
  ]

  -- Some explicit rule of the list fires for the agent; the first explicit rule that fires does.
  abbrev pub AnyFires : List (RoutingRule R) → String → Type 0
  AnyFires [] a = ⊥
  AnyFires (rule ∷ rules) a = Fires regex msg rule a ⊎ AnyFires rules a

  abbrev pub FirstFires : List (RoutingRule R) → String → Type 0
  FirstFires [] a = ⊥
  FirstFires (rule ∷ rules) a =
      Fires regex msg rule a ⊎ (((b : String) → ¬ Fires regex msg rule b) × FirstFires rules a)

  -- The agent for which a rule fires.
  fires? : RoutingRule R → Option String
  fires? (default a) = none
  fires? rule = matches regex rule msg

  fires?_sound : (rule : RoutingRule R) (a : String) → fires? rule ≡ some a → Fires regex msg rule a
  unfolding fires? matches
  fires?_sound (by_channel_id c b) a h = ground (arith, str_eq_iff msg.channel_id c)
  fires?_sound (by_sender_id x b) a h = from_sender msg.sender_id h
    where
      from_sender :
          (o : Option String)
          → (if sender_matches regex o x then some b else none) ≡ some a
          → (o ≡ some x) × (b ≡ a)
      from_sender none h = cc
      from_sender (some y) h = ground (arith, str_eq_iff y x)
  fires?_sound (by_pattern p b) a h = ground arith
  fires?_sound (default b) a h = cc

  fires?_complete :
      (rule : RoutingRule R) (a : String) → Fires regex msg rule a → fires? rule ≡ some a
  unfolding fires? matches
  fires?_complete (by_channel_id c b) a h = ground (arith, str_eq_iff msg.channel_id c)
  fires?_complete (by_sender_id x b) a h = rw (h.0) (ground (arith, str_eq_iff x x))
  fires?_complete (by_pattern p b) a h = ground arith
  fires?_complete (default b) a h = absurd h

  explicit-cons :
      (rule : RoutingRule R) (rules : List (RoutingRule R))
      → explicit (rule ∷ rules) ≡ to_list (fires? rule) ++ explicit rules
  unfolding explicit fires?
  explicit-cons (default a) rules = refl
  explicit-cons _ rules = refl

  no_fire : (rule : RoutingRule R) (a : String) → fires? rule ≡ none → ¬ Fires regex msg rule a
  no_fire rule a e f = cc (fires?_complete rule a f)

  pub contains_explicit→AnyFires :
      (rules : List (RoutingRule R)) (a : String)
      → contains (explicit rules) a ≡ true
      → AnyFires rules a
  unfolding explicit
  contains_explicit→AnyFires [] a h = cc
  contains_explicit→AnyFires (rule ∷ rules) a h = elim (Option-cases (fires? rule)) [
    | inl e ↦
        inr (contains_explicit→AnyFires rules a (rw e at (rw (explicit-cons rule rules) at h)))
    | inr (b, e) ↦ elim (Bool-cases (str_eq b a)) [
      | inl same ↦ inl (fires?_sound rule a (e ∙ ap some ((str_eq_iff b a).0 same)))
      | inr other ↦ inr (
          contains_explicit→AnyFires rules a
            (rw other at (rw e at (rw (explicit-cons rule rules) at h))))
    ]
  ]

  pub AnyFires→contains_explicit :
      (rules : List (RoutingRule R)) (a : String)
      → AnyFires rules a
      → contains (explicit rules) a ≡ true
  unfolding explicit
  AnyFires→contains_explicit [] a h = absurd h
  AnyFires→contains_explicit (rule ∷ rules) a (inl f) =
      rw (explicit-cons rule rules) (rw (fires?_complete rule a f) (rw (str_eq_refl a)))
  AnyFires→contains_explicit (rule ∷ rules) a (inr any) =
      rw (explicit-cons rule rules) (elim (Option-cases (fires? rule)) [
        | inl e ↦ rw e (AnyFires→contains_explicit rules a any)
        | inr (b, e) ↦ rw e (rw (AnyFires→contains_explicit rules a any) (or_true (str_eq b a)))
      ])

  pub head_explicit→FirstFires :
      (rules : List (RoutingRule R)) (a : String)
      → head? (explicit rules) ≡ some a
      → FirstFires rules a
  unfolding explicit
  head_explicit→FirstFires [] a h = cc
  head_explicit→FirstFires (rule ∷ rules) a h = elim (Option-cases (fires? rule)) [
    | inl e ↦ inr (
      λ b. no_fire rule b e,
      head_explicit→FirstFires rules a (rw e at (rw (explicit-cons rule rules) at h)),
    )
    | inr (b, e) ↦
        let same : some b ≡ some a = rw e at (rw (explicit-cons rule rules) at h) in
        inl (fires?_sound rule a (e ∙ same))
  ]

  pub FirstFires→head_explicit :
      (rules : List (RoutingRule R)) (a : String)
      → FirstFires rules a
      → head? (explicit rules) ≡ some a
  unfolding explicit
  FirstFires→head_explicit [] a h = absurd h
  FirstFires→head_explicit (rule ∷ rules) a (inl f) =
      rw (explicit-cons rule rules) (rw (fires?_complete rule a f))
  FirstFires→head_explicit (rule ∷ rules) a (inr (none_here, later)) =
      rw (explicit-cons rule rules) (elim (Option-cases (fires? rule)) [
        | inl e ↦ rw e (FirstFires→head_explicit rules a later)
        | inr (b, e) ↦ absurd (none_here b (fires?_sound rule b e))
      ])
