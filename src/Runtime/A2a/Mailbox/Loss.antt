-- ===== src/Runtime/A2a/Mailbox/Loss.antt =====
-- The message that `recv` loses.
use claw_kernel.Prelude.{ℕ, ◌<◌, ◌≡◌, refl, false, [], ◌∷◌, arith}
use claw_kernel.Runtime.A2a.{
  MessagePriority, critical, high, normal, low, background, A2AMessage, as_u8, with_priority,
}
use claw_kernel.Runtime.A2a.Mailbox.{message, new_mailbox, or_higher, select, recv}

module _ {P : Type 0} where
  loses_by :
      (p q : MessagePriority) (m hi : A2AMessage P) (size : ℕ)
      → as_u8 q < as_u8 p
      → let lower = with_priority p m in
        let higher = with_priority q hi in
        recv (lower ∷ []) false (higher ∷ []) (new_mailbox size)
        ≡ (message higher, new_mailbox size)
  unfolding recv select or_higher
  loses_by critical critical m hi size h = absurd (omega arith)
  loses_by critical high m hi size h = absurd (omega arith)
  loses_by critical normal m hi size h = absurd (omega arith)
  loses_by critical low m hi size h = absurd (omega arith)
  loses_by critical background m hi size h = absurd (omega arith)
  loses_by high critical m hi size h = refl
  loses_by high high m hi size h = absurd (omega arith)
  loses_by high normal m hi size h = absurd (omega arith)
  loses_by high low m hi size h = absurd (omega arith)
  loses_by high background m hi size h = absurd (omega arith)
  loses_by normal critical m hi size h = refl
  loses_by normal high m hi size h = refl
  loses_by normal normal m hi size h = absurd (omega arith)
  loses_by normal low m hi size h = absurd (omega arith)
  loses_by normal background m hi size h = absurd (omega arith)
  loses_by low critical m hi size h = refl
  loses_by low high m hi size h = refl
  loses_by low normal m hi size h = refl
  loses_by low low m hi size h = absurd (omega arith)
  loses_by low background m hi size h = absurd (omega arith)
  loses_by background critical m hi size h = refl
  loses_by background high m hi size h = refl
  loses_by background normal m hi size h = refl
  loses_by background low m hi size h = refl
  loses_by background background m hi size h = absurd (omega arith)

  -- A message that arrives at a waiting `recv` is lost when a message of a higher priority arrives
  -- between its poll and the checks of the higher channels: that one is returned, and no channel
  -- holds the first.
  pub recv_loses :
      (m hi : A2AMessage P) (size : ℕ)
      → as_u8 hi.priority < as_u8 m.priority
      → recv (m ∷ []) false (hi ∷ []) (new_mailbox size) ≡ (message hi, new_mailbox size)
  recv_loses m hi size h = loses_by m.priority hi.priority m hi size h
