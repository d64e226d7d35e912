-- ===== src/Channel/RouterBuilder/RoundTrip.antt =====
-- The listing of a router's rules, written as a configuration file, gives the router back.
use claw_kernel.Prelude.{
  ◌≡◌, refl, sym, ap, ◌∙◌, false, Option, none, some, List, [], ◌∷◌, ◌++◌, map, String, last?,
  Result, ok, str_eq, if◌then◌else◌,
}
use mathlib.Core.List.{append-nil, append_assoc}
use claw_kernel.Channel.{ChannelMessage}
use claw_kernel.Channel.Router.{
  RegexOps, RoutingRule, RoutingRuleSpec, by_channel_id, by_sender_id, by_pattern, default,
  ChannelRouter, list_rules, route,
}
use claw_kernel.Channel.Router.Agents.{to_list}
use claw_kernel.Channel.Router.Matching.{defaults, explicit, route_loop_lem}
use claw_kernel.Channel.Router.{spec_of, route_loop, matches}
use claw_kernel.Channel.RouterBuilder.{
  TomlRule, TomlConfig, ChannelRouterBuilder, RouterError, new_builder, add_toml_rule,
  add_toml_rules, route_pattern, from_toml_config, add_default, build,
}

-- A listed rule as a table of the file.
abbrev pub to_toml : RoutingRuleSpec → TomlRule
to_toml s = record {
  rule_type = s.rule_type;
  channel_id = s.channel_id;
  sender_id = s.sender_id;
  pattern = s.pattern;
  agent_id = s.agent_id;
}

-- The agents of the listed default rules.
pub listed_defaults : List RoutingRuleSpec → List String
listed_defaults [] = []
listed_defaults (s ∷ ss) =
    let rest = listed_defaults ss in
    if str_eq s.rule_type "default" then s.agent_id ∷ rest else rest

-- The file written from a router's listing, with the last listed default as its default.
pub config_of : {R M : Type 0} → RegexOps R → ChannelRouter R M → TomlConfig
config_of regex r = record {
  rules = map to_toml (list_rules regex r);
  default_agent = last? (listed_defaults (list_rules regex r));
}

regroup :
    {R : Type 0} (xs : List (RoutingRule R)) (y : RoutingRule R) (zs : List (RoutingRule R))
    → ◌≡◌ {A = Result RouterError (ChannelRouterBuilder R)}
        (ok (record { rules = (xs ++ y ∷ []) ++ zs }))
        (ok (record { rules = xs ++ y ∷ zs }))
regroup xs y zs = rw (append_assoc xs (y ∷ []) zs)

module _ {R : Type 0} (regex : RegexOps R) where
  without_defaults : List (RoutingRule R) → List (RoutingRule R)
  without_defaults [] = []
  without_defaults (default a ∷ rules) = without_defaults rules
  without_defaults (rule ∷ rules) = rule ∷ without_defaults rules

  -- Every pattern of the rules compiles again from its text.
  abbrev pub Recompile : List (RoutingRule R) → Type 0
  Recompile [] = Unit {0}
  Recompile (by_pattern p a ∷ rules) = (regex.compile (regex.as_str p) ≡ some p) × Recompile rules
  Recompile (by_channel_id c a ∷ rules) = Recompile rules
  Recompile (by_sender_id s a ∷ rules) = Recompile rules
  Recompile (default a ∷ rules) = Recompile rules

  listed_defaults-spec_of :
      (rules : List (RoutingRule R)) → listed_defaults (map (spec_of regex) rules) ≡ defaults rules
  unfolding listed_defaults
  listed_defaults-spec_of [] = refl
  listed_defaults-spec_of (by_channel_id c a ∷ rules) = listed_defaults-spec_of rules
  listed_defaults-spec_of (by_sender_id s a ∷ rules) = listed_defaults-spec_of rules
  listed_defaults-spec_of (by_pattern p a ∷ rules) = listed_defaults-spec_of rules
  listed_defaults-spec_of (default a ∷ rules) = ap (◌∷◌ a) (listed_defaults-spec_of rules)

  reads_back :
      (rules : List (RoutingRule R))
      → Recompile rules
      → (b : ChannelRouterBuilder R)
      → add_toml_rules regex (map to_toml (map (spec_of regex) rules)) b
        ≡ ok (record { rules = b.rules ++ without_defaults rules })
  unfolding add_toml_rules add_toml_rule without_defaults
  reads_back [] again b = rw (append-nil b.rules)
  reads_back (by_channel_id c a ∷ rules) again b = reads_back rules again _ ∙ regroup b.rules _ _
  reads_back (by_sender_id s a ∷ rules) again b = reads_back rules again _ ∙ regroup b.rules _ _
  reads_back (by_pattern p a ∷ rules) (this, again) b =
      rw (this, route_pattern) (reads_back rules again _ ∙ regroup b.rules _ _)
  reads_back (default a ∷ rules) again b = reads_back rules again b

  explicit-without_defaults :
      (msg : ChannelMessage) (rules : List (RoutingRule R)) (more : List (RoutingRule R))
      → explicit regex msg (without_defaults rules ++ more)
        ≡ explicit regex msg rules ++ explicit regex msg more
  unfolding explicit without_defaults
  explicit-without_defaults msg [] more = refl
  explicit-without_defaults msg (default a ∷ rules) more = explicit-without_defaults msg rules more
  explicit-without_defaults msg (rule ∷ rules) more =
      rw (explicit-without_defaults msg rules more) (
        sym (
          append_assoc (to_list (matches regex rule msg)) (explicit regex msg rules)
            (explicit regex msg more)))

  defaults-without_defaults :
      (rules more : List (RoutingRule R))
      → defaults (without_defaults rules ++ more) ≡ defaults more
  unfolding without_defaults
  defaults-without_defaults [] more = refl
  defaults-without_defaults (default a ∷ rules) more = defaults-without_defaults rules more
  defaults-without_defaults (rule ∷ rules) more = defaults-without_defaults rules more

  last_rule : Option String → List (RoutingRule R)
  last_rule none = []
  last_rule (some a) = default a ∷ []

  adds_default :
      (rules : List (RoutingRule R)) (o : Option String)
      → add_default regex o (record { rules = rules }) ≡ record { rules = rules ++ last_rule o }
  unfolding last_rule add_default
  adds_default rules none = rw (append-nil rules)
  adds_default rules (some a) = refl

  same_route :
      (msg : ChannelMessage) (rules : List (RoutingRule R)) (o : Option String)
      → last? (defaults rules) ≡ o
      → route_loop regex msg none (without_defaults rules ++ last_rule o)
        ≡ route_loop regex msg none rules
  unfolding last_rule explicit
  same_route msg rules none e =
      rw
        (
          route_loop_lem regex msg none rules,
          route_loop_lem regex msg none _,
          e,
          explicit-without_defaults msg rules [],
          defaults-without_defaults rules [],
        )
        (rw (append-nil (explicit regex msg rules)))
  same_route msg rules (some a) e =
      rw
        (
          route_loop_lem regex msg none rules,
          route_loop_lem regex msg none _,
          e,
          explicit-without_defaults msg rules (default a ∷ []),
          defaults-without_defaults rules (default a ∷ []),
        )
        (rw (append-nil (explicit regex msg rules)))

-- If every pattern of the router compiles again from its text, and its lock is intact, the file
-- written from its listing is read without an error, and the router built from it routes every
-- message as the router did, wherever its default rules stood.
pub from_toml_config-config_of :
    {R M : Type 0} (regex : RegexOps R) (r : ChannelRouter R M) (no_channels : M)
    → Recompile regex r.rules
    → r.poisoned ≡ false
    → (b : ChannelRouterBuilder R) × (from_toml_config regex (config_of regex r) ≡ ok b)
      × ((msg : ChannelMessage) → route regex (build no_channels b) msg ≡ route regex r msg)
unfolding from_toml_config config_of list_rules route build
from_toml_config-config_of regex r no_channels again healthy = (
  record { rules = without_defaults regex r.rules ++ last_rule regex (last? (defaults r.rules)) },
  rw (healthy, reads_back regex r.rules again new_builder, listed_defaults-spec_of regex r.rules)
      (ap ok (adds_default regex (without_defaults regex r.rules) (last? (defaults r.rules)))),
  λ msg. rw healthy (same_route regex msg r.rules (last? (defaults r.rules)) refl),
)
