-- ===== src/Runtime/A2a/Router/Reachable.antt =====
-- The routers that calls can reach: every registered agent has a mailbox of its own.
use claw_kernel.Prelude.{
  ℕ, zero, suc, ◌≡◌, ◌<◌, refl, sym, subst, ◌⊎◌, ap, ◌∙◌, Bool, true, false, Option, none, some,
  String, Result, List, ok, if◌then◌else◌, is_some, str_eq, str_eq_iff, Bool-cases, inl, inr,
  some-inj, arith,
}
use claw_kernel.Prelude.KeyedMap.{KeyedMap}
use claw_kernel.Runtime.A2a.{A2AMessage, is_expired}
use claw_kernel.Runtime.A2a.Mailbox.{RuntimeError, Mailbox, send}
use claw_kernel.Runtime.A2a.Router.{
  AgentHandle, SimpleRouter, new_handle, store, new_router, register_agent, unregister_agent,
  send_to, send_found, send_message, broadcast_message, route_to, route_message,
}

-- The mailboxes of registered agents are numbered below the next one, and no two are the same.
module _ {M : Type 0} (agent_ops : KeyedMap M AgentHandle) where
  pub record OwnMailboxes (agents : M) (next : ℕ) : Type 0 where
    pub numbered :
        (k : String) (h : AgentHandle) → agent_ops.get k agents ≡ some h → h.mailbox < next
    pub apart :
        (j k : String) (g h : AgentHandle)
        → agent_ops.get j agents ≡ some g
        → agent_ops.get k agents ≡ some h
        → g.mailbox ≡ h.mailbox
        → j ≡ k

  OwnMailboxes-empty : (next : ℕ) → OwnMailboxes agent_ops.empty next
  OwnMailboxes-empty next = record {
    numbered = λ k h found. absurd (grind (arith, agent_ops.get-empty k));
    apart = λ j k g h f1 f2 same. absurd (grind (arith, agent_ops.get-empty j));
  }

  inserted :
      (agent_id k : String) (new h : AgentHandle) (agents : M)
      → agent_ops.get k (agent_ops.insert agent_id new agents) ≡ some h
      → ((agent_id ≡ k) × (new ≡ h)) ⊎ (agent_ops.get k agents ≡ some h)
  inserted agent_id k new h agents found = elim (Bool-cases (str_eq agent_id k)) [
    | inl same ↦ inl (
      (str_eq_iff agent_id k).0 same,
      some-inj (rw same at (sym (agent_ops.get-insert agent_id k new agents) ∙ found)),
    )
    | inr other ↦ inr (rw other at (sym (agent_ops.get-insert agent_id k new agents) ∙ found))
  ]

  OwnMailboxes-insert :
      (agent_id : String) (agents : M) (next : ℕ)
      → OwnMailboxes agents next
      → OwnMailboxes (agent_ops.insert agent_id (new_handle agent_id next) agents) (suc next)
  OwnMailboxes-insert agent_id agents next v = record {
    numbered = λ k h found. elim (inserted agent_id k _ h agents found) [
      | inl (e, new) ↦ (let n = ap (λ x. x.mailbox) new in omega (arith, n))
      | inr old ↦ (let below = v.numbered k h old in omega (arith, below))
    ];
    apart = λ j k g h f1 f2 same. elim (inserted agent_id j _ g agents f1) [
      | inl (e, new) ↦ elim (inserted agent_id k _ h agents f2) [
        | inl (e', new') ↦ sym e ∙ e'
        | inr old ↦
            (let n = ap (λ x. x.mailbox) new in
              let below = v.numbered k h old in absurd (omega (arith, n, below, same)))
      ]
      | inr old ↦ elim (inserted agent_id k _ h agents f2) [
        | inl (e', new') ↦
            (let n = ap (λ x. x.mailbox) new' in
              let below = v.numbered j g old in absurd (omega (arith, n, below, same)))
        | inr old' ↦ v.apart j k g h old old' same
      ]
    ];
  }

  left_after :
      (agent_id k : String) (h : AgentHandle) (agents : M)
      → agent_ops.get k (agent_ops.remove agent_id agents) ≡ some h
      → agent_ops.get k agents ≡ some h
  left_after agent_id k h agents found = elim (Bool-cases (str_eq agent_id k)) [
    | inl same ↦
        absurd (ground (arith, rw same at (sym (agent_ops.get-remove agent_id k agents) ∙ found)))
    | inr other ↦ rw other at (sym (agent_ops.get-remove agent_id k agents) ∙ found)
  ]

  OwnMailboxes-remove :
      (agent_id : String) (agents : M) (next : ℕ)
      → OwnMailboxes agents next
      → OwnMailboxes (agent_ops.remove agent_id agents) next
  OwnMailboxes-remove agent_id agents next v = record {
    numbered = λ k h found. v.numbered k h (left_after agent_id k h agents found);
    apart = λ j k g h f1 f2 same.
        v.apart j k g h (left_after agent_id j g agents f1) (left_after agent_id k h agents f2)
          same;
  }

module _ {M P : Type 0} (agent_ops : KeyedMap M AgentHandle)
    (entries : M → List (String × AgentHandle)) where
  -- A router after any calls; `taken` is what the holders of handles do with their mailboxes.
  pub data Reach : SimpleRouter M P → Type 0 where
    at_start : Reach (new_router agent_ops entries)
    registered :
        {r : SimpleRouter M P} (agent_id : String) (n : ℕ)
        → Reach r
        → {r' : SimpleRouter M P} {handle : AgentHandle}
        → register_agent agent_ops entries agent_id n r ≡ some (r', handle)
        → Reach r'
    unregistered :
        {r : SimpleRouter M P} (agent_id : String)
        → Reach r
        → Reach (unregister_agent agent_ops entries agent_id r).0
    routed :
        {r : SimpleRouter M P} (now : ℕ) (m : A2AMessage P)
        → Reach r
        → {r' : SimpleRouter M P} {result : Result RuntimeError (Unit {0})}
        → route_message agent_ops entries now m r ≡ some (r', result)
        → Reach r'
    taken :
        {r : SimpleRouter M P} (mailboxes : ℕ → Mailbox P)
        → Reach r
        → Reach (record r { mailboxes = mailboxes })

  -- A send changes nothing but mailboxes.
  abbrev Keeps :
      SimpleRouter M P → Option (SimpleRouter M P × Result RuntimeError (Unit {0})) → Type 0
  Keeps r none = Unit {0}
  Keeps r (some (r', result)) = (r'.agents ≡ r.agents) × (r'.next ≡ r.next)

  send_found-Keeps :
      (found : Option AgentHandle) (target : String) (m : A2AMessage P) (r : SimpleRouter M P)
      → Keeps r (send_found agent_ops entries found target m r)
  unfolding send_found send_to
  send_found-Keeps none target m r = (refl, refl)
  send_found-Keeps (some handle) target m r = by_send (send m (r.mailboxes handle.mailbox))
    where
      by_send :
          (sent : Option (Mailbox P × Result RuntimeError (Unit {0})))
          → Keeps r (elim sent [
            | none ↦ none
            | some (box, result) ↦ some (
              record r { mailboxes = store agent_ops entries handle.mailbox box r.mailboxes },
              result,
            )
          ])
      by_send none = tt
      by_send (some (box, result)) = (refl, refl)

  route_message-Keeps :
      (now : ℕ) (m : A2AMessage P) (r : SimpleRouter M P)
      → Keeps r (route_message agent_ops entries now m r)
  unfolding route_message route_to send_message broadcast_message
  route_message-Keeps now m r = by_test (is_expired now m)
    where
      by_target : (target : Option String) → Keeps r (route_to agent_ops entries target m r)
      by_target none = (refl, refl)
      by_target (some target) = send_found-Keeps (agent_ops.get target r.agents) target m r

      by_test :
          (expired : Bool)
          → Keeps r (if expired then some (r, ok tt) else route_to agent_ops entries m.target m r)
      by_test true = (refl, refl)
      by_test false = by_target m.target

  register_agent-OwnMailboxes :
      (agent_id : String) (n : ℕ) (r : SimpleRouter M P) {r' : SimpleRouter M P}
      {handle : AgentHandle}
      → OwnMailboxes agent_ops r.agents r.next
      → register_agent agent_ops entries agent_id n r ≡ some (r', handle)
      → OwnMailboxes agent_ops r'.agents r'.next
  unfolding register_agent
  register_agent-OwnMailboxes agent_id zero r v e = absurd (ground arith)
  register_agent-OwnMailboxes agent_id (suc n) r v e =
      subst (λ x. OwnMailboxes agent_ops x.0.agents x.0.next) (some-inj e)
        (OwnMailboxes-insert agent_ops agent_id r.agents r.next v)

  -- Every router that calls reach gives its registered agents separate mailboxes.
  pub Reach-OwnMailboxes : {r : SimpleRouter M P} → Reach r → OwnMailboxes agent_ops r.agents r.next
  unfolding new_router unregister_agent
  Reach-OwnMailboxes at_start = OwnMailboxes-empty agent_ops 0
  Reach-OwnMailboxes (registered {r} agent_id n h e) =
      register_agent-OwnMailboxes agent_id n r (Reach-OwnMailboxes h) e
  Reach-OwnMailboxes (unregistered {r} agent_id h) =
      elim (Bool-cases (is_some (agent_ops.get agent_id r.agents))) [
        | inl there ↦
            rw there (OwnMailboxes-remove agent_ops agent_id r.agents r.next (Reach-OwnMailboxes h))
        | inr missing ↦ rw missing (Reach-OwnMailboxes h)
      ]
  Reach-OwnMailboxes (routed {r} now m h {r'} {result} e) =
      let (agents, next) = subst (Keeps r) e (route_message-Keeps now m r) in
      rw (agents, next) (Reach-OwnMailboxes h)
  Reach-OwnMailboxes (taken mailboxes h) = Reach-OwnMailboxes h
