-- ===== src/Examples/Servers.antt =====
-- The channel registry and the session manager at concrete inputs.
use claw_kernel.Prelude.{
  ℕ, ◌≡◌, ◌≢◌, refl, Bool, true, false, none, some, List, [], ◌∷◌, String, str_eq_iff, Result,
  arith,
}
use claw_kernel.Prelude.KeyedMap.{assoc_map}
use claw_kernel.Channel.Dedup.{spec_run, spec_step}
use claw_kernel.Server.ChannelRegistry.{
  RegisteredChannel, ChannelRegistry, already_registered, seen_ttl, register, unregister,
}
use claw_kernel.Server.ChannelRegistry
use claw_kernel.Server.ChannelRegistry.Laws.{run_checks, run_checks-spec_run}
use claw_kernel.Server.Session.{
  Session, SessionManager, new, create_for_agent, session_for_agent, get, remove, new_for_agent,
}
use claw_kernel.Server.Session.Histories.{creates_for_agent, started, next, IsValid, Reach-IsValid}
use claw_kernel.Server.Session.Rebinding.{remove_loses_agent}

abbrev Channels : Type 0
Channels = List (String × RegisteredChannel String ℕ)

abbrev Times : Type 0
Times = List (String × ℕ)

abbrev Threads : Type 0
Threads = List (String × String)

abbrev three_checks : List (String × ℕ)
three_checks = ("a", 0) ∷ ("a", 59999) ∷ ("a", 60000) ∷ []

three_answers : spec_run seen_ttl (λ j. none) three_checks ≡ false ∷ true ∷ false ∷ []
unfolding spec_run spec_step
three_answers = refl

run_checks-spec_run_example :
    run_checks {J = String} {X = ℕ} assoc_map assoc_map assoc_map
      (ChannelRegistry.new {J = String} {X = ℕ} assoc_map assoc_map assoc_map)
      three_checks
    ≡ spec_run seen_ttl (λ j. none) three_checks
run_checks-spec_run_example =
    run_checks-spec_run {J = String} {X = ℕ} assoc_map assoc_map assoc_map three_checks
      (omega arith, (omega arith, (omega arith, tt)))

abbrev Registry : Type 0
Registry = ChannelRegistry Channels Times Threads

empty_registry : Registry
empty_registry = ChannelRegistry.new {J = String} {X = ℕ} assoc_map assoc_map assoc_map

abbrev hook_channel : RegisteredChannel String ℕ
hook_channel = record {
  channel_id = "c1";
  channel_type = "webhook";
  config = "{}";
  registered_at = 5;
  outbound_tx = none;
}

abbrev after_register : Registry × Result ChannelRegistry.RegistryError (Unit {0})
after_register = register assoc_map assoc_map assoc_map "webhook" "c1" "{}" none 5 empty_registry

abbrev after_unregister : Registry × Bool
after_unregister = unregister assoc_map assoc_map assoc_map "c1" after_register.0

abbrev Manager : Type 0
Manager = SessionManager (List (String × Session ℕ)) (List (String × String))

abbrev empty_manager : Manager
empty_manager = new {P = ℕ} assoc_map assoc_map 4

abbrev one_session : Manager
one_session = (create_for_agent {P = ℕ} assoc_map assoc_map "agent" "s1" 7 empty_manager).0

no_session_yet : get {P = ℕ} assoc_map assoc_map "s1" empty_manager ≡ none
unfolding get new
no_session_yet = refl

Reach-IsValid_example : IsValid {P = ℕ} assoc_map assoc_map 4 one_session
Reach-IsValid_example =
    Reach-IsValid {P = ℕ} assoc_map assoc_map
      (next started (creates_for_agent "agent" "s1" 7 no_session_yet))

abbrev two_sessions : Manager
two_sessions = (create_for_agent {P = ℕ} assoc_map assoc_map "agent" "s2" 8 one_session).0

ids_differ : ◌≢◌ {A = String} "s1" "s2"
ids_differ e = cc ((str_eq_iff "s1" "s2").1 e)

remove_loses_agent_example :
    ((remove {P = ℕ} assoc_map assoc_map "s1" two_sessions).1 ≡ true)
    × (session_for_agent {P = ℕ} assoc_map assoc_map "agent" two_sessions ≡ some "s2")
    × (session_for_agent {P = ℕ} assoc_map assoc_map "agent"
          (remove {P = ℕ} assoc_map assoc_map "s1" two_sessions).0
        ≡ none)
    × (get {P = ℕ} assoc_map assoc_map "s2" (remove {P = ℕ} assoc_map assoc_map "s1" two_sessions).0
        ≡ some (new_for_agent "s2" "agent" 8))
unfolding new
remove_loses_agent_example =
    remove_loses_agent {P = ℕ} assoc_map assoc_map empty_manager "agent" "s1" "s2" 7 8 ids_differ
      (omega arith)
