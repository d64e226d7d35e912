-- ===== src/Examples/Events.antt =====
-- Event triggers and the in-memory history at concrete inputs.
use claw_kernel.Prelude.{ℕ, ◌≡◌, List, some, arith, refl, ◌↔◌, true, none, [], ◌∷◌, String, str_eq}
use mathlib.Core.List.{Memᴰ}
use mathlib.Core.List.Memᴰ.{head}
use claw_kernel.Loop.Types.{Message, user_message}
use claw_kernel.Loop.History.{
  new_history, set_overflow_callback, append_all, overflows, token_estimate, append_all-overflows,
  message_tokens, quarters,
}
use claw_kernel.Runtime.Events.{Event, trigger_fired, event_trigger, custom, TriggerEvent}
use claw_kernel.Runtime.EventTrigger.{
  EventTriggerRule, Json, new_rule, process_event, type_tag_matches, run, fired, filter_matches,
}
use claw_kernel.Runtime.EventTrigger.Firing.{Watches, process_event_fires}
use claw_kernel.Runtime.EventTrigger.Feedback.{HasTrigger, trigger_never_rests}

abbrev Bus : Type 0
Bus = Event String String String

-- Texts for values, none of which is an object.
abbrev json : Json String String String
json = record { as_object = λ v. none; equal = str_eq; to_value = λ e. "null" }

abbrev stamp : String → String × ℕ
stamp trigger_id = ("id", 7)

abbrev echo : EventTriggerRule String
echo = new_rule "echo" "trigger.fired"

abbrev on_order : EventTriggerRule String
on_order = new_rule "order" "custom.order"

abbrev order : Bus
order = custom "order" "7"

order_fires :
    process_event json stamp (echo ∷ on_order ∷ []) order ≡ fired json stamp on_order "null" ∷ []
unfolding process_event type_tag_matches
order_fires = refl

process_event_fires_example :
    Memᴰ (fired json stamp on_order "null") (process_event json stamp (echo ∷ on_order ∷ []) order)
    ↔ ((rule : EventTriggerRule String) × Memᴰ rule (echo ∷ on_order ∷ [])
        × Watches rule.watch_event order
        × (filter_matches json rule.payload_filter "null" ≡ true)
        × (fired json stamp on_order "null" ≡ fired json stamp rule "null"))
process_event_fires_example =
    process_event_fires json stamp (echo ∷ on_order ∷ []) order (fired json stamp on_order "null")

abbrev first_trigger : TriggerEvent String
first_trigger = event_trigger "id" 7 "order" "null" none

trigger_never_rests_example :
    (waiting : List Bus) × (run json stamp 1024 100 (echo ∷ []) (trigger_fired first_trigger ∷ [])
      ≡ some waiting)
    × HasTrigger json stamp waiting
trigger_never_rests_example =
    trigger_never_rests json stamp 1024 100 echo (trigger_fired first_trigger ∷ []) (omega arith)
      refl refl (first_trigger, head refl)

-- Two such rules double the triggers until the receiver lags.
two_lag : run json stamp 4 10 (echo ∷ echo ∷ []) (trigger_fired first_trigger ∷ []) ≡ none
unfolding run process_event type_tag_matches
two_lag = refl

abbrev greeting : Message
greeting = user_message "hello, agent"

greeting_tokens : message_tokens greeting ≡ 4
unfolding message_tokens quarters
greeting_tokens = refl

append_all-overflows_example :
    append_all (greeting ∷ greeting ∷ greeting ∷ []) (set_overflow_callback (new_history 8))
    ≡ overflows
        (new_history 8).overflow_threshold
        (token_estimate (new_history 8))
        (greeting ∷ greeting ∷ greeting ∷ [])
append_all-overflows_example =
    append_all-overflows (greeting ∷ greeting ∷ greeting ∷ []) (new_history 8)
