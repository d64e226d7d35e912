-- ===== src/Runtime/A2a/Router/RoundTrip.antt =====
-- A message routed to an agent is received by it.
use claw_kernel.Prelude.{
  ℕ, zero, suc, ◌≡◌, ◌≤◌, refl, ap, ◌∙◌, Bool, false, Option, none, some, List, [], String,
  if◌then◌else◌, str_eq, str_eq_refl, Result, ok, arith,
}
use claw_kernel.Prelude.KeyedMap.{KeyedMap}
use claw_kernel.Runtime.A2a.{
  MessagePriority, critical, high, normal, low, background, A2AMessage, is_expired, with_priority,
}
use claw_kernel.Runtime.A2a.Mailbox.{
  RuntimeError, Mailbox, message, new_mailbox, push, send, recv, Received,
}
use claw_kernel.Runtime.A2a.Router.{
  AgentHandle, SimpleRouter, new_handle, store, register_agent, send_to, send_found, send_message,
  route_to, route_message,
}

module _ {P : Type 0} where
  recv-push :
      (p : MessagePriority) (m : A2AMessage P) (size : ℕ)
      → let pushed = with_priority p m in
        recv [] false [] (push pushed (new_mailbox size)) ≡ (message pushed, new_mailbox size)
  unfolding recv
  recv-push critical m size = refl
  recv-push high m size = refl
  recv-push normal m size = refl
  recv-push low m size = refl
  recv-push background m size = refl

  send_with_room :
      (p : MessagePriority) (m : A2AMessage P) (size : ℕ)
      → 1 ≤ size
      → let sent = with_priority p m in
        send sent (new_mailbox size) ≡ some (push sent (new_mailbox size), ok tt)
  unfolding send
  send_with_room critical m size h = ground (arith, h)
  send_with_room high m size h = ground (arith, h)
  send_with_room normal m size h = ground (arith, h)
  send_with_room low m size h = ground (arith, h)
  send_with_room background m size h = ground (arith, h)

module _ {M P : Type 0} (agent_ops : KeyedMap M AgentHandle)
    (entries : M → List (String × AgentHandle)) where
  -- What the holder of a handle receives next, when the routing did not wait.
  abbrev pub received_by :
      AgentHandle → Option (SimpleRouter M P × Result RuntimeError (Unit {0})) → Option (Received P)
  received_by handle none = none
  received_by handle (some (r, result)) = some (recv [] false [] (r.mailboxes handle.mailbox)).0

  store_self :
      (a : ℕ) (box : Mailbox P) (boxes : ℕ → Mailbox P)
      → store agent_ops entries a box boxes a ≡ box
  store_self a box boxes = ground arith

  received_by-send_to :
      (handle : AgentHandle) (size : ℕ) (m : A2AMessage P) (r : SimpleRouter M P)
      → 1 ≤ size
      → r.mailboxes handle.mailbox ≡ new_mailbox size
      → received_by handle (send_to agent_ops entries handle m r) ≡ some (message m)
  unfolding send_to
  received_by-send_to handle size m r room empty =
      ap
        (λ sent. received_by handle (elim sent [
          | none ↦ none
          | some (box, result) ↦ some (
            record r { mailboxes = store agent_ops entries handle.mailbox box r.mailboxes },
            result,
          )
        ]))
        (ap (send m) empty ∙ send_with_room m.priority m size room)
      ∙ ap (λ box. some (recv [] false [] box).0)
          (store_self handle.mailbox (push m (new_mailbox size)) r.mailboxes)
      ∙ ap (λ (x : Received P × Mailbox P). some x.0) (recv-push m.priority m size)

  route_message-send_found :
      (now : ℕ) (target : String) (m : A2AMessage P) (r : SimpleRouter M P)
      → is_expired now m ≡ false
      → m.target ≡ some target
      → route_message agent_ops entries now m r
        ≡ send_found agent_ops entries (agent_ops.get target r.agents) target m r
  unfolding route_message route_to send_message
  route_message-send_found now target m r fresh targeted =
      ap (λ (b : Bool). if b then some (r, ok tt) else route_to agent_ops entries m.target m r)
        fresh
      ∙ ap (λ t. route_to agent_ops entries t m r) targeted

  -- An agent is registered whenever its channels have room for a message, and then receives a message
  -- routed to it that has not expired, whatever its priority and whoever else is registered.
  pub register-route-recv :
      (agent_id : String) (size now : ℕ) (m : A2AMessage P) (r : SimpleRouter M P)
      → 1 ≤ size
      → is_expired now m ≡ false
      → m.target ≡ some agent_id
      → (r' : SimpleRouter M P) × (handle : AgentHandle) × (register_agent agent_ops entries
            agent_id size r
          ≡ some (r', handle))
        × (received_by handle (route_message agent_ops entries now m r') ≡ some (message m))
  unfolding register_agent send_found
  register-route-recv agent_id zero now m r room fresh targeted = absurd (omega arith)
  register-route-recv agent_id (suc n) now m r room fresh targeted = (
    r',
    handle,
    refl,
    ap (received_by handle) (route_message-send_found now agent_id m r' fresh targeted)
        ∙ ap (λ found. received_by handle (send_found agent_ops entries found agent_id m r'))
            (agent_ops.get-insert agent_id agent_id handle r.agents ∙ found_self handle)
        ∙ received_by-send_to handle (suc n) m r' room
            (store_self r.next (new_mailbox (suc n)) r.mailboxes),
  )
    where
      handle : AgentHandle
      handle = new_handle agent_id r.next

      r' : SimpleRouter M P
      r' = record {
        agents = agent_ops.insert agent_id (new_handle agent_id r.next) r.agents;
        mailboxes = store agent_ops entries r.next (new_mailbox (suc n)) r.mailboxes;
        next = suc r.next;
      }

      found_self :
          (handle : AgentHandle)
          → (if str_eq agent_id agent_id then some handle else agent_ops.get agent_id r.agents)
            ≡ some handle
      found_self handle = rw (str_eq_refl agent_id) refl
