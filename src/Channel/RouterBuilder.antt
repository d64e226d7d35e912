-- ===== src/Channel/RouterBuilder.antt =====
-- crates/claw-channel/src/router.rs: `ChannelRouterBuilder`, and routing rules read from a
-- configuration file. Reading the file and parsing TOML give the argument of `from_toml_config`.
pub mod RoundTrip
use claw_kernel.Prelude.{
  Bool, true, false, Option, none, some, List, [], ◌∷◌, ◌++◌, String, if◌then◌else◌, str_eq, Result,
  ok, err, ◌>>=◌,
}
use claw_kernel.Channel.Router.{
  RegexOps, RoutingRule, by_channel_id, by_sender_id, by_pattern, default, ChannelRouter,
}

pub data RouterError : Type 0 where
  regex_error : String → RouterError
  io : String → RouterError
  toml_parse : String → RouterError
  no_match : RouterError

pub record TomlRule : Type 0 where
  pub rule_type : String
  pub channel_id : Option String
  pub sender_id : Option String
  pub pattern : Option String
  pub agent_id : String

-- The table `[default]` holds one agent.
pub record TomlConfig : Type 0 where
  pub rules : List TomlRule
  pub default_agent : Option String

pub record ChannelRouterBuilder (R : Type 0) : Type 0 where
  pub rules : List (RoutingRule R)

abbrev pub unwrap_or_default : Option String → String
unwrap_or_default none = ""
unwrap_or_default (some s) = s

module _ {R : Type 0} where
  unfoldable pub new_builder : ChannelRouterBuilder R
  new_builder = record { rules = [] }

  abbrev push : RoutingRule R → ChannelRouterBuilder R → ChannelRouterBuilder R
  push rule b = record b { rules = b.rules ++ rule ∷ [] }

  unfoldable pub route_channel : String → String → ChannelRouterBuilder R → ChannelRouterBuilder R
  route_channel channel_id agent_id b = push (by_channel_id channel_id agent_id) b

  unfoldable pub route_sender : String → String → ChannelRouterBuilder R → ChannelRouterBuilder R
  route_sender sender_id agent_id b = push (by_sender_id sender_id agent_id) b

  unfoldable pub default_agent : String → ChannelRouterBuilder R → ChannelRouterBuilder R
  default_agent agent_id b = push (default agent_id) b

  unfoldable pub build : {M : Type 0} → M → ChannelRouterBuilder R → ChannelRouter R M
  build no_channels b = record { rules = b.rules; poisoned = false; channels = no_channels }

  module _ (regex : RegexOps R) where
    unfoldable pub route_pattern :
        String → String → ChannelRouterBuilder R → Result RouterError (ChannelRouterBuilder R)
    route_pattern pattern agent_id b = elim (regex.compile pattern) [
      | some p ↦ ok (push (by_pattern p agent_id) b)
      | none ↦ err (regex_error pattern)
    ]

    -- One round of the loop over the rules of the file; an unknown type is skipped.
    unfoldable pub add_toml_rule :
        TomlRule → ChannelRouterBuilder R → Result RouterError (ChannelRouterBuilder R)
    unfolding route_channel route_sender route_pattern
    add_toml_rule rule b =
        if str_eq rule.rule_type "channel"
        then ok (route_channel (unwrap_or_default rule.channel_id) rule.agent_id b)
        else if str_eq rule.rule_type "sender"
        then ok (route_sender (unwrap_or_default rule.sender_id) rule.agent_id b)
        else if str_eq rule.rule_type "pattern"
        then route_pattern (unwrap_or_default rule.pattern) rule.agent_id b
        else ok b

    unfoldable pub add_toml_rules :
        List TomlRule → ChannelRouterBuilder R → Result RouterError (ChannelRouterBuilder R)
    add_toml_rules [] b = ok b
    add_toml_rules (rule ∷ rules) b = add_toml_rule rule b >>= add_toml_rules rules

    add_default : Option String → ChannelRouterBuilder R → ChannelRouterBuilder R
    unfolding default_agent
    add_default none b = b
    add_default (some agent_id) b = default_agent agent_id b

    unfoldable pub from_toml_config : TomlConfig → Result RouterError (ChannelRouterBuilder R)
    unfolding new_builder add_default
    from_toml_config config = do
      builder ← add_toml_rules config.rules new_builder
      ok (add_default config.default_agent builder)
