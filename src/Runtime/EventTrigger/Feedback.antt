-- ===== src/Runtime/EventTrigger/Feedback.antt =====
-- A rule that watches fired triggers feeds itself.
use claw_kernel.Prelude.{
  ◌≡◌, ◌≤◌, some, length, length-append, le→ltb, arith, refl, ap, subst, true, Option, none, List,
  [], ◌∷◌, ◌++◌, String, ℕ, zero, suc, inl,
}
use mathlib.Core.List.{Memᴰ}
use mathlib.Core.List.Memᴰ.{head, tail}
use mathlib.Core.List.Memᴰ
use claw_kernel.Runtime.Events.{Event, TriggerEvent, trigger_fired}
use claw_kernel.Runtime.EventTrigger.{EventTriggerRule, Json, filter_matches, process_event, run}
use claw_kernel.Runtime.EventTrigger.Firing.{process_event_fires}

module _ {J M X : Type 0} (json : Json J M X) (stamp : String → String × ℕ) where
  -- Some trigger waits at the receiver.
  abbrev pub HasTrigger : List (Event J M X) → Type 0
  HasTrigger waiting = (t : TriggerEvent J) × Memᴰ (trigger_fired t) waiting

  passes_free :
      (filter : Option J) (payload : J) → filter ≡ none → filter_matches json filter payload ≡ true
  passes_free filter payload free = ap (λ f. filter_matches json f payload) free

  fires_again :
      (rules : List (EventTriggerRule J)) (rule : EventTriggerRule J) (t : TriggerEvent J)
      → Memᴰ rule rules
      → rule.watch_event ≡ "trigger.fired"
      → rule.payload_filter ≡ none
      → HasTrigger (process_event json stamp rules (trigger_fired t))
  fires_again rules rule t m watch free = (
    _,
    (process_event_fires json stamp rules (trigger_fired t) _).1
        (rule, m, inl watch, passes_free rule.payload_filter _ free, refl),
  )

  one_rule-length :
      (rule : EventTriggerRule J) (e : Event J M X)
      → length (process_event json stamp (rule ∷ []) e) ≤ 1
  unfolding process_event
  one_rule-length rule e = ground arith

  -- While one rule is registered, without a filter and watching `trigger.fired`, the registry never
  -- comes to rest after one trigger that is waiting with no more than the bus holds: after any number
  -- of events it has not lagged and a trigger waits.
  pub trigger_never_rests :
      (capacity n : ℕ) (rule : EventTriggerRule J) (waiting : List (Event J M X))
      → length waiting ≤ capacity
      → rule.watch_event ≡ "trigger.fired"
      → rule.payload_filter ≡ none
      → HasTrigger waiting
      → (waiting' : List (Event J M X)) × (run json stamp capacity n (rule ∷ []) waiting
          ≡ some waiting')
        × HasTrigger waiting'
  unfolding run
  trigger_never_rests capacity zero rule waiting room watch free has = (waiting, refl, has)
  trigger_never_rests capacity (suc n) rule [] room watch free (t, i) = elim i [ ]
  trigger_never_rests capacity (suc n) rule (e ∷ waiting) room watch free (t, i) =
      rw (le→ltb capacity (suc (length waiting)) room) (
        trigger_never_rests capacity n rule (waiting ++ process_event json stamp (rule ∷ []) e)
          still_fits watch free (still_waits i))
    where
      still_fits : length (waiting ++ process_event json stamp (rule ∷ []) e) ≤ capacity
      still_fits =
          rw (length-append waiting (process_event json stamp (rule ∷ []) e))
            (omega (arith, room, one_rule-length rule e))

      still_waits :
          Memᴰ (trigger_fired t) (e ∷ waiting)
          → HasTrigger (waiting ++ process_event json stamp (rule ∷ []) e)
      still_waits (head same) =
          let (t', j) = fires_again (rule ∷ []) rule t (head refl) watch free in
          subst (λ x. HasTrigger (waiting ++ process_event json stamp (rule ∷ []) x)) same
            (t', Memᴰ.append_right waiting j)
      still_waits (tail i) = (t, Memᴰ.append_left _ i)
