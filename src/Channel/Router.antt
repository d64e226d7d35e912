-- ===== src/Channel/Router.antt =====
-- crates/claw-channel/src/router.rs: routing rules, their evaluation and their builder.
-- Compiled regular expressions are the type `R` with the operations of the regex crate that the
-- code calls; the channel registry is a `KeyedMap` from names to channels `C`.
pub mod Agents
pub mod Matching
pub mod Precedence
pub mod Removal
use claw_kernel.Prelude.{
  ℕ, ◌-◌, Bool, true, false, not, ◌||◌, Option, none, some, List, [], ◌∷◌, ◌++◌, map, String,
  length, if◌then◌else◌, str_eq, is_some, Result, ok, err, ◌>>=◌,
}
use claw_kernel.Prelude.KeyedMap.{KeyedMap}
use claw_kernel.Channel.{ChannelMessage}

-- `Regex::new`, `is_match` and `as_str`.
pub record RegexOps (R : Type 0) : Type 0 where
  pub compile : String → Option R
  pub is_match : R → String → Bool
  pub as_str : R → String

pub data RoutingRule (R : Type 0) : Type 0 where
  by_channel_id : String → String → RoutingRule R
  by_sender_id : String → String → RoutingRule R
  by_pattern : R → String → RoutingRule R
  default : String → RoutingRule R

pub record RoutingRuleSpec : Type 0 where
  pub rule_type : String
  pub channel_id : Option String
  pub sender_id : Option String
  pub pattern : Option String
  pub agent_id : String

-- `poisoned` is the state of the lock on the rules: a poisoned lock gives no rules to anybody.
pub record ChannelRouter (R M : Type 0) : Type 0 where
  pub rules : List (RoutingRule R)
  pub poisoned : Bool
  pub channels : M

-- `agents.contains(agent_id)`.
abbrev pub contains : List String → String → Bool
contains [] a = false
contains (x ∷ xs) a = str_eq x a || contains xs a

module _ {R : Type 0} (regex : RegexOps R) where
  unfoldable pub sender_matches : Option String → String → Bool
  sender_matches none sender_id = false
  sender_matches (some s) sender_id = str_eq s sender_id

  unfoldable pub matches : RoutingRule R → ChannelMessage → Option String
  unfolding sender_matches
  matches (by_channel_id channel_id agent_id) msg =
      if str_eq msg.channel_id channel_id then some agent_id else none
  matches (by_sender_id sender_id agent_id) msg =
      if sender_matches msg.sender_id sender_id then some agent_id else none
  matches (by_pattern pattern agent_id) msg =
      if regex.is_match pattern msg.content then some agent_id else none
  matches (default agent_id) msg = some agent_id

  -- The loop of `route` over the rules that are left, with `default_agent`.
  unfoldable pub route_loop : ChannelMessage → Option String → List (RoutingRule R) → Option String
  route_loop msg default_agent [] = default_agent
  route_loop msg default_agent (default agent_id ∷ rules) = route_loop msg (some agent_id) rules
  route_loop msg default_agent (rule ∷ rules) =
      let rest = route_loop msg default_agent rules in
      elim (matches rule msg) [ some agent_id ↦ some agent_id | none ↦ rest ]

  unfoldable pub route : {M : Type 0} → ChannelRouter R M → ChannelMessage → Option String
  unfolding route_loop
  route r msg = if r.poisoned then none else route_loop msg none r.rules

  -- The loop of `broadcast_route`, with its three variables; the last clause is the step after it.
  unfoldable pub broadcast_loop :
      ChannelMessage → List String → Bool → Option String → List (RoutingRule R) → List String
  broadcast_loop msg agents has_explicit_match default_agent (default agent_id ∷ rules) =
      broadcast_loop msg agents has_explicit_match (some agent_id) rules
  broadcast_loop msg agents has_explicit_match default_agent (rule ∷ rules) =
      elim (matches rule msg) [
        | some agent_id ↦
            broadcast_loop msg
              (if contains agents agent_id then agents else agents ++ agent_id ∷ []) true
              default_agent rules
        | none ↦ broadcast_loop msg agents has_explicit_match default_agent rules
      ]
  broadcast_loop msg agents true default_agent [] = agents
  broadcast_loop msg agents false none [] = agents
  broadcast_loop msg agents false (some agent_id) [] = agents ++ agent_id ∷ []

  unfoldable pub broadcast_route : {M : Type 0} → ChannelRouter R M → ChannelMessage → List String
  unfolding broadcast_loop
  broadcast_route r msg = if r.poisoned then [] else broadcast_loop msg [] false none r.rules

  abbrev pub spec_of : RoutingRule R → RoutingRuleSpec
  spec_of (by_channel_id c a) = record {
    rule_type = "channel";
    channel_id = some c;
    sender_id = none;
    pattern = none;
    agent_id = a;
  }
  spec_of (by_sender_id s a) = record {
    rule_type = "sender";
    channel_id = none;
    sender_id = some s;
    pattern = none;
    agent_id = a;
  }
  spec_of (by_pattern p a) = record {
    rule_type = "pattern";
    channel_id = none;
    sender_id = none;
    pattern = some (regex.as_str p);
    agent_id = a;
  }
  spec_of (default a) = record {
    rule_type = "default";
    channel_id = none;
    sender_id = none;
    pattern = none;
    agent_id = a;
  }

  unfoldable pub list_rules : {M : Type 0} → ChannelRouter R M → List RoutingRuleSpec
  list_rules r = if r.poisoned then [] else map spec_of r.rules

abbrev pub target : {R : Type 0} → RoutingRule R → String
target (by_channel_id c a) = a
target (by_sender_id s a) = a
target (by_pattern p a) = a
target (default a) = a

-- `retain(|r| target != agent_id)`.
unfoldable pub retain_others : {R : Type 0} → String → List (RoutingRule R) → List (RoutingRule R)
retain_others agent_id [] = []
retain_others agent_id (rule ∷ rules) =
    let rest = retain_others agent_id rules in
    if str_eq (target rule) agent_id then rest else rule ∷ rest

module _ {R M : Type 0} where
  unfoldable pub rule_count : ChannelRouter R M → ℕ
  rule_count r = if r.poisoned then 0 else length r.rules

  unfoldable pub add_rule : RoutingRule R → ChannelRouter R M → ChannelRouter R M
  add_rule rule r = if r.poisoned then r else record r { rules = r.rules ++ rule ∷ [] }

  unfoldable pub remove_rules_for_agent : String → ChannelRouter R M → ChannelRouter R M × ℕ
  remove_rules_for_agent agent_id r =
      if r.poisoned
      then (r, 0)
      else let kept = retain_others agent_id r.rules in
        (record r { rules = kept }, length r.rules - length kept)

-- `route(msg)?` and then `get_channel(..)?`.
pub and_channel : {C : Type 0} → Option String → Option C → Option (String × C)
and_channel (some agent_id) (some channel) = some (agent_id, channel)
and_channel (some agent_id) none = none
and_channel none _ = none

module _ {R M C : Type 0} (map_ops : KeyedMap M C) where
  unfoldable pub register : String → C → ChannelRouter R M → ChannelRouter R M
  register name channel r = record r { channels = map_ops.insert name channel r.channels }

  unfoldable pub unregister : String → ChannelRouter R M → ChannelRouter R M × Bool
  unregister name r = (
    record r { channels = map_ops.remove name r.channels },
    is_some (map_ops.get name r.channels),
  )

  unfoldable pub get_channel : String → ChannelRouter R M → Option C
  get_channel name r = map_ops.get name r.channels

  unfoldable pub route_to_channel :
      RegexOps R → ChannelRouter R M → ChannelMessage → Option (String × C)
  unfolding and_channel
  route_to_channel regex r msg = and_channel (route regex r msg) (get_channel msg.channel_id r)
