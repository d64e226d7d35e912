-- ===== src/Server/Session/Index.antt =====
-- The index from agents to sessions, and what inserting and removing do to it.
use claw_kernel.Prelude.{
  ◌≡◌, ◌≢◌, refl, sym, ap, ◌∙◌, inl, inr, Option, none, some, String, str_eq, str_eq_iff,
  Bool-cases, some-inj,
}
use claw_kernel.Prelude.KeyedMap.{KeyedMap}
use claw_kernel.Server.Session.{Session, new_for_agent, unlink}

module _ {S A P : Type 0} (session_ops : KeyedMap S (Session P))
    (agent_ops : KeyedMap A String) where
  -- Every entry of the index names a session that exists and is bound to the agent.
  abbrev pub Linked : S → A → Type 0
  Linked sessions index =
      (a id : String)
      → agent_ops.get a index ≡ some id
      → (s : Session P) × (session_ops.get id sessions ≡ some s) × (s.agent_id ≡ some a)

  pub insert-Linked :
      (id : String) (s : Session P) (sessions : S) (index : A)
      → session_ops.get id sessions ≡ none
      → Linked sessions index
      → Linked (session_ops.insert id s sessions) index
  insert-Linked id s sessions index fresh linked a j e =
      let (t, there, bound) = linked a j e in
      (
        t,
        rw (session_ops.get-insert id j s sessions) (elim (Bool-cases (str_eq id j)) [
          | inl same ↦
              absurd
                (cc (there, fresh, ap (λ k. session_ops.get k sessions) ((str_eq_iff id j).0 same)))
          | inr other ↦ rw other there
        ]),
        bound,
      )

  pub link-Linked :
      (agent id : String) (payload : P) (sessions : S) (index : A)
      → session_ops.get id sessions ≡ none
      → Linked sessions index
      → Linked
          (session_ops.insert id (new_for_agent id agent payload) sessions)
          (agent_ops.insert agent id index)
  link-Linked agent id payload sessions index fresh linked a j e =
      elim (Bool-cases (str_eq agent a)) [
        | inl same ↦
            let found : some id ≡ some j =
              rw same at (rw (agent_ops.get-insert agent a id index) at e) in
            (
              new_for_agent id agent payload,
              rw (session_ops.get-insert id j _ sessions)
                  (rw ((str_eq_iff id j).1 (cc found)) refl),
              ap some ((str_eq_iff agent a).0 same),
            )
        | inr other ↦
            insert-Linked id (new_for_agent id agent payload) sessions index fresh linked a j
              (rw other at (rw (agent_ops.get-insert agent a id index) at e))
      ]

  -- Removing a session and every entry of the index that names it keeps the link.
  remove-Linked :
      (id : String) (sessions : S) (index index' : A)
      → Linked sessions index
      → ((a j : String)
          → agent_ops.get a index' ≡ some j
          → (agent_ops.get a index ≡ some j) × (id ≢ j))
      → Linked (session_ops.remove id sessions) index'
  remove-Linked id sessions index index' linked kept a j e =
      let (before, ne) = kept a j e in
      let (t, there, bound) = linked a j before in
      (
        t,
        rw (session_ops.get-remove id j sessions) (elim (Bool-cases (str_eq id j)) [
          | inl same ↦ absurd (ne ((str_eq_iff id j).0 same))
          | inr other ↦ rw other there
        ]),
        bound,
      )

  kept_by_remove :
      (agent a j : String) (index : A)
      → agent_ops.get a (agent_ops.remove agent index) ≡ some j
      → (agent_ops.get a index ≡ some j) × (agent ≢ a)
  kept_by_remove agent a j index e = elim (Bool-cases (str_eq agent a)) [
    | inl same ↦ absurd (cc (rw same at (rw (agent_ops.get-remove agent a index) at e)))
    | inr other ↦ (
      rw other at (rw (agent_ops.get-remove agent a index) at e),
      λ eq. cc (other, (str_eq_iff agent a).1 eq),
    )
  ]

  -- Two sessions of the table under one identifier are one.
  same_session :
      {sessions : S} {i j : String} {s t : Session P}
      → session_ops.get i sessions ≡ some s
      → session_ops.get j sessions ≡ some t
      → i ≡ j
      → s.agent_id ≡ t.agent_id
  same_session {s} {t} p q e =
      let same : some s ≡ some t = cc in ap (λ (u : Session P). u.agent_id) (some-inj same)

  pub unlink-Linked :
      (id : String) (s : Session P) (sessions : S) (index : A)
      → session_ops.get id sessions ≡ some s
      → Linked sessions index
      → (o : Option String) → s.agent_id ≡ o
      → Linked (session_ops.remove id sessions) (unlink session_ops agent_ops o index)
  unfolding unlink
  unlink-Linked id s sessions index there linked none b =
      remove-Linked id sessions index index linked
        λ a j e. let (t, g, bound) = linked a j e in (e, λ eq. cc (same_session there g eq, bound))
  unlink-Linked id s sessions index there linked (some agent) b =
      remove-Linked id sessions index (agent_ops.remove agent index) linked λ a j e.
        let (before, ne) = kept_by_remove agent a j index e in
        let (t, g, bound) = linked a j before in
        (before, λ eq. ne (some-inj (sym b ∙ same_session there g eq ∙ bound)))

  pub unagent-Linked :
      (agent id : String) (sessions : S) (index : A)
      → agent_ops.get agent index ≡ some id
      → Linked sessions index
      → Linked (session_ops.remove id sessions) (agent_ops.remove agent index)
  unagent-Linked agent id sessions index named linked =
      let (s, there, bound) = linked agent id named in
      remove-Linked id sessions index (agent_ops.remove agent index) linked λ a j e.
        let (before, ne) = kept_by_remove agent a j index e in
        let (t, g, bound') = linked a j before in
        (before, λ eq. ne (some-inj (sym bound ∙ same_session there g eq ∙ bound')))
