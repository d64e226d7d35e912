-- ===== src/Runtime/A2a/Router/Delivery.antt =====
-- Which mailboxes a message reaches.
use claw_kernel.Prelude.{
  ℕ, ◌≡◌, ◌≢◌, ◌⊎◌, inl, inr, some, Bool-cases, str_eq_iff, refl, sym, ap, ◌∙◌, Bool, true, false,
  List, [], ◌∷◌, String, if◌then◌else◌, ◌==◌, str_eq, arith,
}
use mathlib.Core.List.{Memᴰ}
use mathlib.Core.List.Memᴰ.{head, tail}
use claw_kernel.Prelude.KeyedMap.{KeyedMap}
use claw_kernel.Prelude.KeyedMap.Listing.{NoKeyTwice, Lists}
use claw_kernel.Runtime.A2a.{A2AMessage}
use claw_kernel.Runtime.A2a.Router.Reachable.{Reach, OwnMailboxes, Reach-OwnMailboxes}
use claw_kernel.Runtime.A2a.Mailbox.{Mailbox, try_send}
use claw_kernel.Runtime.A2a.Router.{
  AgentHandle, SimpleRouter, store, broadcast_to, broadcast_message,
}

-- Some agent other than the sender has the mailbox.
abbrev pub reaches : String → List (String × AgentHandle) → ℕ → Bool
reaches source [] a = false
reaches source ((agent_id, handle) ∷ rest) a =
    let later = reaches source rest a in
    if str_eq source agent_id then later else if handle.mailbox == a then true else later

-- No two agents have the same mailbox.
abbrev pub Separate : List (String × AgentHandle) → Type 0
Separate [] = Unit {0}
Separate ((agent_id, handle) ∷ rest) =
    ((e : String × AgentHandle) → Memᴰ e rest → (e.1.mailbox == handle.mailbox) ≡ false)
    × Separate rest

reaches-other :
    (source : String) (es : List (String × AgentHandle)) (a : ℕ)
    → ((e : String × AgentHandle) → Memᴰ e es → (e.1.mailbox == a) ≡ false)
    → reaches source es a ≡ false
reaches-other source [] a others = refl
reaches-other source ((agent_id, handle) ∷ rest) a others =
    let later = reaches-other source rest a (λ e m. others e (tail m)) in
    let here = others (agent_id, handle) (head refl) in ground (arith, later, here)

combine :
    {A : Type 0} (own here later : Bool) (f : A → A) (b sent : A)
    → (here ≡ true → (later ≡ false) × (sent ≡ f b))
    → let x = if own then b else if here then sent else b in
      (if later then f x else x)
      ≡ (if if own then later else if here then true else later then f b else b)
combine true here later f b sent h = refl
combine false true true f b sent h = absurd (ground (arith, (h refl).0))
combine false true false f b sent h = (h refl).1
combine false false later f b sent h = refl

eqb→eq : (a b : ℕ) → (a == b) ≡ true → a ≡ b
eqb→eq a b h = ground arith

deeper :
    {source : String} {x : String × AgentHandle} {es : List (String × AgentHandle)} {a : ℕ}
    → (e : String × AgentHandle) × Memᴰ e es × (e.0 ≢ source) × (e.1.mailbox ≡ a)
    → (e : String × AgentHandle) × Memᴰ e (x ∷ es) × (e.0 ≢ source) × (e.1.mailbox ≡ a)
deeper (e, i, other, here) = (e, tail i, other, here)

reaches-Memᴰ :
    (source : String) (es : List (String × AgentHandle)) (a : ℕ)
    → reaches source es a ≡ true
    → (e : String × AgentHandle) × Memᴰ e es × (e.0 ≢ source) × (e.1.mailbox ≡ a)
reaches-Memᴰ source [] a does = absurd (ground arith)
reaches-Memᴰ source ((k, h) ∷ rest) a does = elim (Bool-cases (str_eq source k)) [
  | inl own ↦ deeper (reaches-Memᴰ source rest a (ground (arith, own, does)))
  | inr other ↦ elim (Bool-cases (h.mailbox == a)) [
    | inl here ↦ (
      (k, h),
      head refl,
      λ same. cc (other, (str_eq_iff source k).1 (sym same)),
      eqb→eq h.mailbox a here,
    )
    | inr elsewhere ↦ deeper (reaches-Memᴰ source rest a (ground (arith, other, elsewhere, does)))
  ]
]

unreached :
    (source : String) (es : List (String × AgentHandle)) (a : ℕ) (e : String × AgentHandle)
    → reaches source es a ≡ false
    → Memᴰ e es
    → e.0 ≢ source
    → e.1.mailbox ≢ a
unreached source [] a e does_not i other here = elim i [ ]
unreached source ((k, h) ∷ rest) a e does_not (head same) other here =
    absurd (grind (arith, does_not, same, other, here, str_eq_iff source k))
unreached source ((k, h) ∷ rest) a e does_not (tail i) other here =
    unreached source rest a e (ground (arith, does_not)) i other here

separate :
    {M : Type 0} (agent_ops : KeyedMap M AgentHandle) (agents : M) (next : ℕ)
    (es : List (String × AgentHandle))
    → OwnMailboxes agent_ops agents next
    → NoKeyTwice es
    → ((e : String × AgentHandle) → Memᴰ e es → agent_ops.get e.0 agents ≡ some e.1)
    → Separate es
separate agent_ops agents next [] v once found = tt
separate agent_ops agents next (x ∷ es) v (first, once) found = (
  λ e i. elim (Bool-cases (e.1.mailbox == x.1.mailbox)) [
    | inl same ↦ absurd (
        first e i (
          v.apart e.0 x.0 e.1 x.1 (found e (tail i)) (found x (head refl))
            (eqb→eq e.1.mailbox x.1.mailbox same)))
    | inr other ↦ other
  ],
  separate agent_ops agents next es v once (λ e i. found e (tail i)),
)

module _ {M P : Type 0} (agent_ops : KeyedMap M AgentHandle)
    (entries : M → List (String × AgentHandle)) where
  after_first :
      (own : Bool) (h a : ℕ) (box : Mailbox P) (boxes : ℕ → Mailbox P)
      → (if own then boxes else store agent_ops entries h box boxes) a
        ≡ (if own then boxes a else if h == a then box else boxes a)
  after_first true h a box boxes = refl
  after_first false h a box boxes = refl

  broadcast_to-reaches :
      (es : List (String × AgentHandle)) (m : A2AMessage P) (boxes : ℕ → Mailbox P)
      → Separate es
      → (a : ℕ)
      → broadcast_to agent_ops entries es m boxes a
        ≡ (if reaches m.source es a then (try_send m (boxes a)).0 else boxes a)
  unfolding broadcast_to
  broadcast_to-reaches [] m boxes separate a = refl
  broadcast_to-reaches ((agent_id, handle) ∷ rest) m boxes (others, separate) a =
      let own = str_eq m.source agent_id in
      let sent = (try_send m (boxes handle.mailbox)).0 in
      broadcast_to-reaches rest m
        (if own then boxes else store agent_ops entries handle.mailbox sent boxes) separate a
      ∙ ap (λ x. if reaches m.source rest a then (try_send m x).0 else x)
          (after_first own handle.mailbox a sent boxes)
      ∙ combine own (handle.mailbox == a) (reaches m.source rest a) (λ x. (try_send m x).0)
          (boxes a) sent
          (λ here.
            let same = eqb→eq handle.mailbox a here in
            (
              reaches-other m.source rest a
                  (λ e i. ap (λ x. e.1.mailbox == x) (sym same) ∙ others e i),
              ap (λ x. (try_send m (boxes x)).0) same,
            ))

  -- The mailbox of a registered agent other than the sender.
  abbrev pub Receives : A2AMessage P → SimpleRouter M P → ℕ → Type 0
  Receives m r a =
      (k : String) × (h : AgentHandle) × (agent_ops.get k r.agents ≡ some h)
      × (k ≢ m.source)
      × (h.mailbox ≡ a)

  -- Of any router that calls reach, a broadcast tries to put the message once into the mailbox of
  -- each registered agent but its sender, and leaves every other mailbox as it is, in whatever order
  -- the map gives the agents.
  pub broadcast_message-reaches :
      (m : A2AMessage P) (r : SimpleRouter M P)
      → Lists agent_ops entries
      → Reach agent_ops entries r
      → (a : ℕ)
      → (Receives m r a
          × ((broadcast_message agent_ops entries m r).mailboxes a
              ≡ (try_send m (r.mailboxes a)).0))
        ⊎ (¬ Receives m r a
            × ((broadcast_message agent_ops entries m r).mailboxes a ≡ r.mailboxes a))
  unfolding broadcast_message
  broadcast_message-reaches m r lists reached a =
      elim (Bool-cases (reaches m.source (entries r.agents) a)) [
        | inl does ↦ inl (
          (let (e, i, other, here) = reaches-Memᴰ m.source (entries r.agents) a does in
              (e.0, e.1, (lists.listed r.agents e.0 e.1).0 i, other, here)),
          rw does at sent,
        )
        | inr does_not ↦ inr (
          λ (k, h, found, other, here).
              unreached m.source (entries r.agents) a (k, h) does_not
                ((lists.listed r.agents k h).1 found) other here,
          rw does_not at sent,
        )
      ]
    where
      sent : broadcast_to agent_ops entries (entries r.agents) m r.mailboxes a ≡ (
          if reaches m.source (entries r.agents) a
          then (try_send m (r.mailboxes a)).0
          else r.mailboxes a)
      sent =
          broadcast_to-reaches (entries r.agents) m r.mailboxes
            (separate agent_ops r.agents r.next (entries r.agents)
              (Reach-OwnMailboxes agent_ops entries reached) (lists.once r.agents)
              (λ e i. (lists.listed r.agents e.0 e.1).0 i))
            a
