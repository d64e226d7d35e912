-- ===== src/Runtime/A2a/Mailbox/Order.antt =====
-- The order in which `recv` gives messages, and the message that it loses.
use claw_kernel.Prelude.{ℕ, ◌≡◌, refl, Bool, false, List, [], ◌∷◌, ◌++◌, drop}
use claw_kernel.Runtime.A2a.{A2AMessage}
use claw_kernel.Runtime.A2a.Mailbox.{
  Mailbox, Received, message, waiting, arrive, or_higher, select, recv, priorities,
}

module _ {P : Type 0} where
  -- The waiting messages, by priority and then by age.
  abbrev pub queued : Mailbox P → List (A2AMessage P)
  queued box =
      box.rx_critical ++ (box.rx_high ++ (box.rx_normal ++ (box.rx_low ++ box.rx_background)))

  abbrev pub next_message : List (A2AMessage P) → Received P
  next_message [] = waiting
  next_message (m ∷ ms) = message m

  abbrev mailbox : (c h n l b : List (A2AMessage P)) → ℕ → Bool → Mailbox P
  mailbox c h n l b size alive = record {
    rx_critical = c;
    rx_high = h;
    rx_normal = n;
    rx_low = l;
    rx_background = b;
    buffer_size = size;
    has_receiver = alive;
  }

  select-queued :
      (c h n l b : List (A2AMessage P)) (size : ℕ) (alive : Bool)
      → let box = mailbox c h n l b size alive in
        let (got, box') = select false [] [] priorities box in
        (got ≡ next_message (queued box)) × (queued box' ≡ drop 1 (queued box))
  unfolding select or_higher
  select-queued (m ∷ c) h n l b size alive = (refl, refl)
  select-queued [] (m ∷ h) n l b size alive = (refl, refl)
  select-queued [] [] (m ∷ n) l b size alive = (refl, refl)
  select-queued [] [] [] (m ∷ l) b size alive = (refl, refl)
  select-queued [] [] [] [] (m ∷ b) size alive = (refl, refl)
  select-queued [] [] [] [] [] size alive = (refl, refl)

  -- What `recv` takes from: the waiting messages, or when there are none those that arrive.
  abbrev pub offered : List (A2AMessage P) → Mailbox P → List (A2AMessage P)
  offered arriving box = elim (queued box) [ [] ↦ queued (arrive arriving box) | m ∷ ms ↦ m ∷ ms ]

  by_queues :
      (c h n l b arriving : List (A2AMessage P)) (size : ℕ) (alive : Bool)
      → let box = mailbox c h n l b size alive in
        let (got, box') = recv arriving false [] box in
        (got ≡ next_message (offered arriving box)) × (queued box' ≡ drop 1 (offered arriving box))
  unfolding recv
  by_queues (m ∷ c) h n l b arriving size alive = (refl, refl)
  by_queues [] (m ∷ h) n l b arriving size alive = (refl, refl)
  by_queues [] [] (m ∷ n) l b arriving size alive = (refl, refl)
  by_queues [] [] [] (m ∷ l) b arriving size alive = (refl, refl)
  by_queues [] [] [] [] (m ∷ b) arriving size alive = (refl, refl)
  by_queues [] [] [] [] [] arriving size alive =
      let box = arrive arriving (mailbox [] [] [] [] [] size alive) in
      select-queued box.rx_critical box.rx_high box.rx_normal box.rx_low box.rx_background
        box.buffer_size box.has_receiver

  -- While a sender lives and no message arrives between the poll and the checks of the higher
  -- channels, `recv` takes the oldest message of the highest priority that waits, or that arrives
  -- when none waits, and leaves all others in place; it waits on exactly when there is none.
  pub recv-queued :
      (arriving : List (A2AMessage P)) (box : Mailbox P)
      → ((recv arriving false [] box).0 ≡ next_message (offered arriving box))
        × (queued (recv arriving false [] box).1 ≡ drop 1 (offered arriving box))
  recv-queued arriving box =
      by_queues box.rx_critical box.rx_high box.rx_normal box.rx_low box.rx_background arriving
        box.buffer_size box.has_receiver
