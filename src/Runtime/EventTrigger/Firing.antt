-- ===== src/Runtime/EventTrigger/Firing.antt =====
-- Which rules fire.
use claw_kernel.Prelude.{
  ◌≡◌, refl, sym, ap, subst, ◌∙◌, Bool, true, false, not, Option, none, some, List, [], ◌∷◌, String,
  if◌then◌else◌, str_eq_iff, str_eq_refl, some-inj, ◌↔◌, ◌⊎◌, inl, inr, arith, ℕ,
}
use mathlib.Core.List.{Memᴰ}
use mathlib.Core.List.Memᴰ.{head, tail}
use claw_kernel.Runtime.Events.{
  Event, agent_started, agent_stopped, llm_request_started, llm_request_completed, message_received,
  a2a, tool_called, tool_result, context_window_approaching_limit, memory_archive_complete,
  mode_changed, extension, agent_restarted, agent_failed, shutdown, trigger_fired, custom,
}
use claw_kernel.Runtime.EventTrigger.{
  EventTriggerRule, Json, event_type_tag, strip_prefix, is_custom, sub_matches, type_tag_matches,
  filter_matches, fired, process_event,
}

either : (a b : Bool) → ((if a then true else b) ≡ true) ↔ ((a ≡ true) ⊎ (b ≡ true))
either true b = (λ h. inl refl, λ h. refl)
either false b = (λ h. inr h, λ h. elim h [ inl e ↦ absurd (ground arith) | inr e ↦ e ])

both : (a b : Bool) → ((if a then b else false) ≡ true) ↔ ((a ≡ true) × (b ≡ true))
both true b = (λ h. (refl, h), λ (a, h). h)
both false b = (λ h. absurd (ground arith), λ (a, h). absurd (ground arith))

two_guards :
    {A : Type 0} (a b : Bool) (x : A) (rest : List A)
    → (if not a then rest else if not b then rest else x ∷ rest)
      ≡ (if if a then b else false then x ∷ rest else rest)
two_guards true true x rest = refl
two_guards true false x rest = refl
two_guards false true x rest = refl
two_guards false false x rest = refl

module _ {J M X : Type 0} where
  -- The rule watches the tag of the event, or the type of a custom event after `custom.`.
  abbrev pub Watches : String → Event J M X → Type 0
  Watches watch_event e =
      (watch_event ≡ event_type_tag e)
      ⊎ ((event_type : String) × (content : J) × (e ≡ custom event_type content)
          × (strip_prefix "custom." watch_event ≡ some event_type))

  -- The event is a custom one of that type.
  abbrev Custom : Event J M X → String → Type 0
  Custom e sub = (content : J) × (e ≡ custom sub content)

  content_of : (e : Event J M X) (sub : String) → is_custom e sub ≡ true → Custom e sub
  content_of (agent_started a) sub h = absurd (ground arith)
  content_of (agent_stopped a r) sub h = absurd (ground arith)
  content_of (agent_restarted a n d) sub h = absurd (ground arith)
  content_of (agent_failed a n r) sub h = absurd (ground arith)
  content_of (llm_request_started a p) sub h = absurd (ground arith)
  content_of (llm_request_completed a p c) sub h = absurd (ground arith)
  content_of (message_received a c m) sub h = absurd (ground arith)
  content_of (a2a m) sub h = absurd (ground arith)
  content_of (tool_called a n c) sub h = absurd (ground arith)
  content_of (tool_result a n c b) sub h = absurd (ground arith)
  content_of (context_window_approaching_limit a c l) sub h = absurd (ground arith)
  content_of (memory_archive_complete a n) sub h = absurd (ground arith)
  content_of (mode_changed a b) sub h = absurd (ground arith)
  content_of (extension x) sub h = absurd (ground arith)
  content_of (trigger_fired t) sub h = absurd (ground arith)
  content_of shutdown sub h = absurd (ground arith)
  content_of (custom event_type content) sub h =
      (content, ap (λ x. custom x content) ((str_eq_iff event_type sub).0 h))

  sub_matches_iff :
      (o : Option String) (e : Event J M X)
      → (sub_matches o e ≡ true) ↔ (
          (event_type : String) × (content : J) × (e ≡ custom event_type content)
          × (o ≡ some event_type))
  sub_matches_iff none e = (λ h. absurd (ground arith), λ (x, c, h, o). absurd (ground arith))
  sub_matches_iff (some sub) e = (
    λ h. let (content, same) = content_of e sub h in (sub, content, same, refl),
    λ (x, c, same, o).
        subst (λ y. is_custom e y ≡ true) (sym (some-inj o))
          (subst (λ y. is_custom y x ≡ true) (sym same) (str_eq_refl x)),
  )

  type_tag_matches_iff :
      (watch_event : String) (e : Event J M X)
      → (type_tag_matches watch_event (event_type_tag e) e ≡ true) ↔ Watches watch_event e
  unfolding type_tag_matches
  type_tag_matches_iff watch_event e = (
    λ h. elim ((either _ _).0 h) [
      | inl same ↦ inl ((str_eq_iff watch_event (event_type_tag e)).0 same)
      | inr sub ↦ inr ((sub_matches_iff _ e).0 sub)
    ],
    λ h. (either _ _).1 (elim h [
      | inl same ↦ inl ((str_eq_iff watch_event (event_type_tag e)).1 same)
      | inr sub ↦ inr ((sub_matches_iff _ e).1 sub)
    ]),
  )

module _ {J M X : Type 0} (json : Json J M X) (stamp : String → String × ℕ) where
  -- The conditions of a rule on an event.
  abbrev rule_matches : EventTriggerRule J → Event J M X → Bool
  rule_matches rule e =
      if type_tag_matches rule.watch_event (event_type_tag e) e
      then filter_matches json rule.payload_filter (json.to_value e)
      else false

  process_event-cons :
      (rule : EventTriggerRule J) (rules : List (EventTriggerRule J)) (e : Event J M X)
      → process_event json stamp (rule ∷ rules) e ≡ (
          if rule_matches rule e
          then fired json stamp rule (json.to_value e) ∷ process_event json stamp rules e
          else process_event json stamp rules e)
  unfolding process_event
  process_event-cons rule rules e =
      two_guards (type_tag_matches rule.watch_event (event_type_tag e) e)
        (filter_matches json rule.payload_filter (json.to_value e)) _ _

  abbrev Fires : List (EventTriggerRule J) → (e t : Event J M X) → Type 0
  Fires rules e t =
      (rule : EventTriggerRule J) × Memᴰ rule rules
      × (rule_matches rule e ≡ true)
      × (t ≡ fired json stamp rule (json.to_value e))

  Fires-later :
      (rule : EventTriggerRule J) (rules : List (EventTriggerRule J)) (e t : Event J M X)
      → Fires rules e t
      → Fires (rule ∷ rules) e t
  Fires-later rule rules e t (r, m, h, same) = (r, tail m, h, same)

  Fires-cons :
      (rule : EventTriggerRule J) (rules : List (EventTriggerRule J)) (e t : Event J M X)
      (published : List (Event J M X))
      → (Memᴰ t published ↔ Fires rules e t)
      → Memᴰ t (
          if rule_matches rule e
          then fired json stamp rule (json.to_value e) ∷ published
          else published)
        ↔ Fires (rule ∷ rules) e t
  Fires-cons rule rules e t published ih = by_test (rule_matches rule e) refl
    where
      from_list :
          rule_matches rule e ≡ true
          → Memᴰ t (fired json stamp rule (json.to_value e) ∷ published)
          → Fires (rule ∷ rules) e t
      from_list h (head same) = (rule, head refl, h, same)
      from_list h (tail m) = Fires-later rule rules e t (ih.0 m)

      to_list :
          (b : Bool)
          → rule_matches rule e ≡ b
          → (r : EventTriggerRule J) → rule_matches r e ≡ true
          → t ≡ fired json stamp r (json.to_value e)
          → Memᴰ r (rule ∷ rules)
          → Memᴰ t (if b then fired json stamp rule (json.to_value e) ∷ published else published)
      to_list true h r hr same (head e') =
          head (same ∙ ap (λ x. fired json stamp x (json.to_value e)) e')
      to_list true h r hr same (tail m) = tail (ih.1 (r, m, hr, same))
      to_list false h r hr same (head e') =
          absurd (ground (arith, sym hr ∙ ap (λ x. rule_matches x e) e' ∙ h))
      to_list false h r hr same (tail m) = ih.1 (r, m, hr, same)

      by_test :
          (b : Bool)
          → rule_matches rule e ≡ b
          → Memᴰ t (if b then fired json stamp rule (json.to_value e) ∷ published else published)
            ↔ Fires (rule ∷ rules) e t
      by_test true h = (from_list h, λ (r, m, hr, same). to_list true h r hr same m)
      by_test false h = (
        λ m. Fires-later rule rules e t (ih.0 m),
        λ (r, m, hr, same). to_list false h r hr same m,
      )

  published_when_matched :
      (rules : List (EventTriggerRule J)) (e t : Event J M X)
      → Memᴰ t (process_event json stamp rules e) ↔ Fires rules e t
  unfolding process_event
  published_when_matched [] e t = (λ m. elim m [ ], λ (r, m, h, same). elim m [ ])
  published_when_matched (rule ∷ rules) e t = rw (process_event-cons rule rules e) (
      Fires-cons rule rules e t (process_event json stamp rules e)
        (published_when_matched rules e t))

  rule_matches_iff :
      (rule : EventTriggerRule J) (e : Event J M X)
      → (rule_matches rule e ≡ true) ↔ (
          Watches rule.watch_event e
          × (filter_matches json rule.payload_filter (json.to_value e) ≡ true))
  rule_matches_iff rule e = (
    λ h. let (a, b) = (both _ _).0 h in ((type_tag_matches_iff rule.watch_event e).0 a, b),
    λ (a, b). (both _ _).1 ((type_tag_matches_iff rule.watch_event e).1 a, b),
  )

  -- An event publishes a trigger exactly for each rule that watches its tag, or its type when it is
  -- a custom event, and whose filter it passes.
  pub process_event_fires :
      (rules : List (EventTriggerRule J)) (e t : Event J M X)
      → Memᴰ t (process_event json stamp rules e) ↔ (
          (rule : EventTriggerRule J) × Memᴰ rule rules
          × Watches rule.watch_event e
          × (filter_matches json rule.payload_filter (json.to_value e) ≡ true)
          × (t ≡ fired json stamp rule (json.to_value e)))
  process_event_fires rules e t = (
    λ m.
        let (rule, i, h, same) = (published_when_matched rules e t).0 m in
        let (watches, passes) = (rule_matches_iff rule e).0 h in (rule, i, watches, passes, same),
    λ (rule, i, watches, passes, same).
        (published_when_matched rules e t).1
          (rule, i, (rule_matches_iff rule e).1 (watches, passes), same),
  )
