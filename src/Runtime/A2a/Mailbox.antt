-- ===== src/Runtime/A2a/Mailbox.antt =====
-- crates/claw-runtime/src/a2a/routing.rs: `PriorityReceiver` and the sending half, `AgentHandle`.
-- The five channels between them are bounded queues of the `tokio` library. What other tasks do
-- while `recv` waits is an argument: the messages that arrive before the channels are polled and
-- those that arrive after, and whether all senders are gone by then.
pub mod Order
pub mod Sorting
pub mod Loss
use claw_kernel.Prelude.{
  ℕ, Bool, true, false, not, ◌||◌, Option, none, some, List, [], ◌∷◌, ◌++◌, String, if◌then◌else◌,
  leb, length, Result, ok, err,
}
use claw_kernel.Runtime.A2a.{MessagePriority, critical, high, normal, low, background, A2AMessage}

pub data RuntimeError : Type 0 where
  agent_not_found : String → RuntimeError
  agent_already_exists : String → RuntimeError
  ipc_error : String → RuntimeError
  event_bus_error : String → RuntimeError
  shutting_down : RuntimeError
  timeout : RuntimeError
  process_error : String → RuntimeError
  unsupported_command : String → RuntimeError

pub record Mailbox (P : Type 0) : Type 0 where
  pub rx_critical : List (A2AMessage P)
  pub rx_high : List (A2AMessage P)
  pub rx_normal : List (A2AMessage P)
  pub rx_low : List (A2AMessage P)
  pub rx_background : List (A2AMessage P)
  pub buffer_size : ℕ
  pub has_receiver : Bool

pub data Received (P : Type 0) : Type 0 where
  message : A2AMessage P → Received P
  ended : Received P
  waiting : Received P

abbrev pub priorities : List MessagePriority
priorities = critical ∷ high ∷ normal ∷ low ∷ background ∷ []

module _ {P : Type 0} where
  -- The five channels of `register_agent`.
  abbrev pub new_mailbox : ℕ → Mailbox P
  new_mailbox buffer_size = record {
    rx_critical = [];
    rx_high = [];
    rx_normal = [];
    rx_low = [];
    rx_background = [];
    buffer_size = buffer_size;
    has_receiver = true;
  }

  -- `sender_for`, and the receiving end of the same priority.
  abbrev pub channel : MessagePriority → Mailbox P → List (A2AMessage P)
  channel critical box = box.rx_critical
  channel high box = box.rx_high
  channel normal box = box.rx_normal
  channel low box = box.rx_low
  channel background box = box.rx_background

  abbrev pub set_channel : MessagePriority → List (A2AMessage P) → Mailbox P → Mailbox P
  set_channel critical q box = record box { rx_critical = q }
  set_channel high q box = record box { rx_high = q }
  set_channel normal q box = record box { rx_normal = q }
  set_channel low q box = record box { rx_low = q }
  set_channel background q box = record box { rx_background = q }

  abbrev pub push : A2AMessage P → Mailbox P → Mailbox P
  push m box = set_channel m.priority (channel m.priority box ++ m ∷ []) box

  unfoldable pub try_send : A2AMessage P → Mailbox P → Mailbox P × Result RuntimeError (Unit {0})
  try_send m box =
      if not box.has_receiver || leb box.buffer_size (length (channel m.priority box))
      then (box, err (ipc_error "agent channel full or closed"))
      else (push m box, ok tt)

  -- `none` while the channel is full: the sender waits.
  unfoldable pub send :
      A2AMessage P → Mailbox P → Option (Mailbox P × Result RuntimeError (Unit {0}))
  send m box =
      if not box.has_receiver
      then some (box, err (ipc_error "agent channel closed"))
      else if leb box.buffer_size (length (channel m.priority box))
      then none
      else some (push m box, ok tt)

  -- Messages that other tasks put into the channels.
  abbrev pub arrive : List (A2AMessage P) → Mailbox P → Mailbox P
  arrive [] box = box
  arrive (m ∷ ms) box = arrive ms (push m box)

  abbrev pop : MessagePriority → List (A2AMessage P) → Mailbox P → Option (A2AMessage P × Mailbox P)
  pop p [] box = none
  pop p (m ∷ q) box = some (m, set_channel p q box)

  abbrev pub try_recv : MessagePriority → Mailbox P → Option (A2AMessage P × Mailbox P)
  try_recv p box = pop p (channel p box) box

  -- `try_recv` on some channels, one after the other.
  abbrev pub first_of : List MessagePriority → Mailbox P → Option (A2AMessage P × Mailbox P)
  first_of [] box = none
  first_of (p ∷ ps) box =
      let rest = first_of ps box in elim (try_recv p box) [ none ↦ rest | some taken ↦ some taken ]

  -- An arm of `select!` has the message `m`: a message of a higher channel is returned in its place.
  unfoldable pub or_higher :
      A2AMessage P → Option (A2AMessage P × Mailbox P) → Mailbox P → Received P × Mailbox P
  or_higher m none box = (message m, box)
  or_higher m (some (hi, box')) box = (message hi, box')

  -- The arms in their order, each with the channels above it. All senders go together, so the first
  -- channel that is polled empty then ends the wait.
  unfoldable pub select :
      (closed : Bool) (later : List (A2AMessage P))
      → List MessagePriority
      → List MessagePriority
      → Mailbox P
      → Received P × Mailbox P
  unfolding or_higher
  select closed later higher [] box = (waiting, box)
  select closed later higher (p ∷ ps) box =
      let rest = select closed later (higher ++ p ∷ []) ps box in
      elim (try_recv p box) [
        | none ↦ if closed then (ended, box) else rest
        | some (m, box') ↦
            let box'' = arrive later box' in or_higher m (first_of higher box'') box''
      ]

  unfoldable pub recv :
      (arriving : List (A2AMessage P)) (closed : Bool) (later : List (A2AMessage P))
      → Mailbox P
      → Received P × Mailbox P
  unfolding select
  recv arriving closed later box = elim (first_of priorities box) [
    | some (m, box') ↦ (message m, box')
    | none ↦ select closed later [] priorities (arrive arriving box)
  ]
