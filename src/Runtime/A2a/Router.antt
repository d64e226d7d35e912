-- ===== src/Runtime/A2a/Router.antt =====
-- crates/claw-runtime/src/a2a/routing.rs: `SimpleRouter`. A handle is shared between the router and
-- whoever registered the agent: the mailboxes stand in a store, and a handle is a number in it. The
-- order in which a map gives its entries is a parameter.
pub mod Reachable
pub mod Delivery
pub mod RoundTrip
use claw_kernel.Prelude.{
  ℕ, zero, suc, ◌+◌, Bool, true, false, Option, none, some, List, [], ◌∷◌, ◌++◌, String,
  if◌then◌else◌, ◌==◌, str_eq, is_some, Result, ok, err,
}
use claw_kernel.Prelude.KeyedMap.{KeyedMap}
use claw_kernel.Runtime.A2a.{A2AMessage, is_expired}
use claw_kernel.Runtime.A2a.Mailbox.{
  RuntimeError, agent_not_found, Mailbox, new_mailbox, send, try_send,
}

pub record AgentHandle : Type 0 where
  pub agent_id : String
  pub mailbox : ℕ

abbrev pub new_handle : String → ℕ → AgentHandle
new_handle agent_id mailbox = record { agent_id = agent_id; mailbox = mailbox }

-- `next` is the number of the next mailbox.
pub record SimpleRouter (M P : Type 0) : Type 0 where
  pub agents : M
  pub mailboxes : ℕ → Mailbox P
  pub next : ℕ

module _ {M P : Type 0} (agent_ops : KeyedMap M AgentHandle)
    (entries : M → List (String × AgentHandle)) where
  abbrev pub store : ℕ → Mailbox P → (ℕ → Mailbox P) → ℕ → Mailbox P
  store a box boxes b = if a == b then box else boxes b

  unfoldable pub new_router : SimpleRouter M P
  new_router = record { agents = agent_ops.empty; mailboxes = λ a. new_mailbox 0; next = 0 }

  -- `none` is the panic of a channel without room.
  unfoldable pub register_agent :
      String → ℕ → SimpleRouter M P → Option (SimpleRouter M P × AgentHandle)
  register_agent agent_id zero r = none
  register_agent agent_id (suc n) r = some (
    record {
      agents = agent_ops.insert agent_id (new_handle agent_id r.next) r.agents;
      mailboxes = store r.next (new_mailbox (suc n)) r.mailboxes;
      next = suc r.next;
    },
    new_handle agent_id r.next,
  )

  unfoldable pub unregister_agent :
      String → SimpleRouter M P → SimpleRouter M P × Result RuntimeError (Unit {0})
  unregister_agent agent_id r =
      if is_some (agent_ops.get agent_id r.agents)
      then (record r { agents = agent_ops.remove agent_id r.agents }, ok tt)
      else (r, err (agent_not_found agent_id))

  unfoldable pub is_agent_registered : String → SimpleRouter M P → Bool
  is_agent_registered agent_id r = is_some (agent_ops.get agent_id r.agents)

  unfoldable pub get_agent : String → SimpleRouter M P → Option AgentHandle
  get_agent agent_id r = agent_ops.get agent_id r.agents

  -- `handle.send(message).await`; `none` while the channel is full.
  unfoldable pub send_to :
      AgentHandle
      → A2AMessage P
      → SimpleRouter M P
      → Option (SimpleRouter M P × Result RuntimeError (Unit {0}))
  send_to handle m r = elim (send m (r.mailboxes handle.mailbox)) [
    | none ↦ none
    | some (box, result) ↦
        some (record r { mailboxes = store handle.mailbox box r.mailboxes }, result)
  ]

  unfoldable pub send_found :
      Option AgentHandle
      → String
      → A2AMessage P
      → SimpleRouter M P
      → Option (SimpleRouter M P × Result RuntimeError (Unit {0}))
  unfolding send_to
  send_found none target m r = some (r, err (agent_not_found target))
  send_found (some handle) target m r = send_to handle m r

  unfoldable pub send_message :
      String
      → A2AMessage P
      → SimpleRouter M P
      → Option (SimpleRouter M P × Result RuntimeError (Unit {0}))
  unfolding send_found
  send_message target m r = send_found (agent_ops.get target r.agents) target m r

  unfoldable pub broadcast_to :
      List (String × AgentHandle) → A2AMessage P → (ℕ → Mailbox P) → ℕ → Mailbox P
  broadcast_to [] m boxes = boxes
  broadcast_to ((agent_id, handle) ∷ rest) m boxes =
      let sent = store handle.mailbox (try_send m (boxes handle.mailbox)).0 boxes in
      broadcast_to rest m (if str_eq m.source agent_id then boxes else sent)

  unfoldable pub broadcast_message : A2AMessage P → SimpleRouter M P → SimpleRouter M P
  unfolding broadcast_to
  broadcast_message m r = record r { mailboxes = broadcast_to (entries r.agents) m r.mailboxes }

  unfoldable pub route_to :
      Option String
      → A2AMessage P
      → SimpleRouter M P
      → Option (SimpleRouter M P × Result RuntimeError (Unit {0}))
  unfolding broadcast_message send_message
  route_to none m r = some (broadcast_message m r, ok tt)
  route_to (some target) m r = send_message target m r

  unfoldable pub route_message :
      (now : ℕ)
      → A2AMessage P
      → SimpleRouter M P
      → Option (SimpleRouter M P × Result RuntimeError (Unit {0}))
  unfolding route_to
  route_message now m r = if is_expired now m then some (r, ok tt) else route_to m.target m r
