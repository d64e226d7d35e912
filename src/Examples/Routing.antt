-- ===== src/Examples/Routing.antt =====
-- The routers at a concrete set of rules. Patterns are texts that match exactly.
use claw_kernel.Prelude.{
  ℕ, ◌+◌, ◌≡◌, ◌≢◌, refl, ◌⊎◌, ◌↔◌, true, false, none, some, List, [], ◌∷◌, length, String, str_eq,
  ok, arith,
}
use claw_kernel.Prelude.KeyedMap.{assoc_map}
use claw_kernel.Channel.{ChannelMessage, inbound, discord}
use claw_kernel.Channel.Router.{
  RegexOps, RoutingRule, by_channel_id, by_sender_id, by_pattern, default, ChannelRouter, contains,
  matches, sender_matches, route_loop, route, broadcast_route, remove_rules_for_agent,
}
use claw_kernel.Channel.Router.Agents.{NoRepeat, head?}
use claw_kernel.Channel.Router.Matching.{AnyFires, FirstFires}
use claw_kernel.Channel.Router.Precedence.{FallsBack, route_precedence, broadcast_route_reaches}
use claw_kernel.Channel.Router.Removal.{count_for, Without, remove_rules_lem}
use claw_kernel.Channel.RouterBuilder.{ChannelRouterBuilder, from_toml_config, build}
use claw_kernel.Channel.RouterBuilder.RoundTrip.{config_of, from_toml_config-config_of}
use claw_kernel.Channel.Dedup.{spec_run, spec_step}
use claw_kernel.Channel.DeduplicatingRouter.{new, with_ttl, with_gc_interval}
use claw_kernel.Channel.DeduplicatingRouter.Refines.{run_calls, run_calls-spec_run}

abbrev exact : RegexOps String
exact = record { compile = λ s. some s; is_match = str_eq; as_str = λ s. s }

abbrev mixed_rules : List (RoutingRule String)
mixed_rules =
    by_channel_id "general" "helper"
    ∷ default "fallback"
    ∷ by_sender_id "ann" "private"
    ∷ by_pattern "ping" "helper"
    ∷ []

abbrev mixed : ChannelRouter String (List (String × ℕ))
mixed = record { rules = mixed_rules; poisoned = false; channels = [] }

abbrev from_ann : ChannelMessage
from_ann = record {
  id = "m1";
  channel_id = "random";
  direction = inbound;
  platform = discord;
  content = "ping";
  sender_id = some "ann";
  thread_id = none;
  timestamp_ms = 0;
}

ann_is_private : route exact mixed from_ann ≡ some "private"
unfolding route route_loop matches sender_matches
ann_is_private = refl

route_precedence_example : (route exact mixed from_ann ≡ some "private") ↔ (
    FirstFires exact from_ann mixed_rules "private"
    ⊎ FallsBack exact from_ann mixed_rules "private")
route_precedence_example = route_precedence exact mixed from_ann "private" refl

broadcast_route_reaches_example :
    NoRepeat (broadcast_route exact mixed from_ann)
    × (head? (broadcast_route exact mixed from_ann) ≡ route exact mixed from_ann)
    × ((a : String)
        → (contains (broadcast_route exact mixed from_ann) a ≡ true)
          ↔ (AnyFires exact from_ann mixed_rules a ⊎ FallsBack exact from_ann mixed_rules a))
broadcast_route_reaches_example = broadcast_route_reaches exact mixed from_ann refl

remove_rules_lem_example :
    ((remove_rules_for_agent "helper" mixed).1 ≡ count_for "helper" mixed_rules)
    × Without "helper" mixed_rules (remove_rules_for_agent "helper" mixed).0.rules
    × (length (remove_rules_for_agent "helper" mixed).0.rules
          + (remove_rules_for_agent "helper" mixed).1
        ≡ length mixed_rules)
    × ((msg : ChannelMessage) (b : String)
        → AnyFires exact msg (remove_rules_for_agent "helper" mixed).0.rules b
          ↔ ((b ≢ "helper") × AnyFires exact msg mixed_rules b))
    × ((msg : ChannelMessage)
        → route exact (remove_rules_for_agent "helper" mixed).0 msg ≢ some "helper")
remove_rules_lem_example = remove_rules_lem exact mixed "helper" refl

from_toml_config-config_of_example :
    (b : ChannelRouterBuilder String) × (from_toml_config exact (config_of exact mixed) ≡ ok b)
    × ((msg : ChannelMessage) → route exact (build mixed.channels b) msg ≡ route exact mixed msg)
from_toml_config-config_of_example =
    from_toml_config-config_of exact mixed mixed.channels (refl, tt) refl

-- A repeat within the time to live, a sweep, and a repeat after it.
abbrev five_calls : List (String × ℕ)
five_calls = ("a", 0) ∷ ("a", 50) ∷ ("b", 60) ∷ ("a", 120) ∷ ("b", 130) ∷ []

five_answers : spec_run 100 (λ j. none) five_calls ≡ false ∷ true ∷ false ∷ false ∷ true ∷ []
unfolding spec_run spec_step
five_answers = refl

run_calls-spec_run_example :
    run_calls assoc_map
      (with_gc_interval assoc_map 2 (with_ttl assoc_map 100 (new assoc_map mixed)))
      five_calls
    ≡ some (spec_run 100 (λ j. none) five_calls)
run_calls-spec_run_example =
    run_calls-spec_run assoc_map mixed 100 2 five_calls (omega arith)
      (omega arith, (omega arith, (omega arith, (omega arith, (omega arith, tt)))))
