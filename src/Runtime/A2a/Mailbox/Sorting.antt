-- ===== src/Runtime/A2a/Mailbox/Sorting.antt =====
-- Sending messages and then receiving them sorts them by priority.
use claw_kernel.Prelude.{
  ℕ, zero, suc, ◌+◌, ◌≤◌, ◌≡◌, refl, sym, ap, subst, ◌∙◌, Bool, true, false, List, [], ◌∷◌, ◌++◌,
  if◌then◌else◌, ◌==◌, length, drop, take, Result, arith, leb, length-append, map, not, ◌||◌,
}
use mathlib.Core.List.{append_assoc, append-nil}
use claw_kernel.Runtime.A2a.{
  MessagePriority, critical, high, normal, low, background, A2AMessage, as_u8,
}
use claw_kernel.Runtime.A2a.Mailbox.{
  RuntimeError, Mailbox, Received, message, new_mailbox, channel, set_channel, push, try_send, recv,
}
use claw_kernel.Runtime.A2a.Mailbox.Order.{queued, next_message, recv-queued}

abbrev count : MessagePriority → MessagePriority → ℕ
count p q = if as_u8 p == as_u8 q then 1 else 0

one_priority :
    (p : MessagePriority)
    → count p critical + (count p high + (count p normal + (count p low + count p background))) ≡ 1
one_priority critical = refl
one_priority high = refl
one_priority normal = refl
one_priority low = refl
one_priority background = refl

if_false : {A : Type 0} (b : Bool) (x y : A) → b ≡ false → (if b then x else y) ≡ y
if_false true x y h = absurd (ground arith)
if_false false x y h = refl

module _ {P : Type 0} where
  abbrev is_priority : MessagePriority → A2AMessage P → Bool
  is_priority p m = as_u8 m.priority == as_u8 p

  -- The messages of one priority, in their order.
  abbrev pub of_priority : MessagePriority → List (A2AMessage P) → List (A2AMessage P)
  of_priority p [] = []
  of_priority p (m ∷ ms) = let rest = of_priority p ms in if is_priority p m then m ∷ rest else rest

  -- A list sorted by priority, stably.
  abbrev pub by_priority : List (A2AMessage P) → List (A2AMessage P)
  by_priority ms =
      of_priority critical ms
      ++ (of_priority high ms
          ++ (of_priority normal ms ++ (of_priority low ms ++ of_priority background ms)))

  abbrev pub send_all : List (A2AMessage P) → Mailbox P → Mailbox P
  send_all [] box = box
  send_all (m ∷ ms) box = send_all ms (try_send m box).0

  -- What `n` calls of `recv` give while nothing arrives.
  abbrev pub receive_all : ℕ → Mailbox P → List (Received P)
  receive_all zero box = []
  receive_all (suc n) box = let (got, box') = recv [] false [] box in got ∷ receive_all n box'

  channel-push :
      (q p : MessagePriority) (m : A2AMessage P) (box : Mailbox P)
      → channel q (set_channel p (channel p box ++ m ∷ []) box)
        ≡ channel q box ++ (if as_u8 p == as_u8 q then m ∷ [] else [])
  channel-push critical critical m box = refl
  channel-push critical high m box = sym (append-nil (channel critical box))
  channel-push critical normal m box = sym (append-nil (channel critical box))
  channel-push critical low m box = sym (append-nil (channel critical box))
  channel-push critical background m box = sym (append-nil (channel critical box))
  channel-push high critical m box = sym (append-nil (channel high box))
  channel-push high high m box = refl
  channel-push high normal m box = sym (append-nil (channel high box))
  channel-push high low m box = sym (append-nil (channel high box))
  channel-push high background m box = sym (append-nil (channel high box))
  channel-push normal critical m box = sym (append-nil (channel normal box))
  channel-push normal high m box = sym (append-nil (channel normal box))
  channel-push normal normal m box = refl
  channel-push normal low m box = sym (append-nil (channel normal box))
  channel-push normal background m box = sym (append-nil (channel normal box))
  channel-push low critical m box = sym (append-nil (channel low box))
  channel-push low high m box = sym (append-nil (channel low box))
  channel-push low normal m box = sym (append-nil (channel low box))
  channel-push low low m box = refl
  channel-push low background m box = sym (append-nil (channel low box))
  channel-push background critical m box = sym (append-nil (channel background box))
  channel-push background high m box = sym (append-nil (channel background box))
  channel-push background normal m box = sym (append-nil (channel background box))
  channel-push background low m box = sym (append-nil (channel background box))
  channel-push background background m box = refl

  other_fields :
      (p : MessagePriority) (q : List (A2AMessage P)) (box : Mailbox P)
      → ((set_channel p q box).buffer_size ≡ box.buffer_size)
        × ((set_channel p q box).has_receiver ≡ box.has_receiver)
  other_fields critical q box = (refl, refl)
  other_fields high q box = (refl, refl)
  other_fields normal q box = (refl, refl)
  other_fields low q box = (refl, refl)
  other_fields background q box = (refl, refl)

  try_send-push :
      (m : A2AMessage P) (box : Mailbox P)
      → box.has_receiver ≡ true
      → length (channel m.priority box) + 1 ≤ box.buffer_size
      → (try_send m box).0 ≡ push m box
  unfolding try_send
  try_send-push m box alive room =
      ap (λ (r : Mailbox P × Result RuntimeError (Unit {0})). r.0)
        (if_false (not box.has_receiver || leb box.buffer_size (length (channel m.priority box))) _
          _ (ground (arith, alive, room)))

  length-if : (b : Bool) (m : A2AMessage P) → length (if b then m ∷ [] else []) ≤ 1
  length-if true m = omega arith
  length-if false m = omega arith

  if-append :
      (b : Bool) (m : A2AMessage P) (ms : List (A2AMessage P))
      → (if b then m ∷ [] else []) ++ ms ≡ (if b then m ∷ ms else ms)
  if-append true m ms = refl
  if-append false m ms = refl

  channel-send_all :
      (ms : List (A2AMessage P)) (box : Mailbox P)
      → box.has_receiver ≡ true
      → ((p : MessagePriority) → length (channel p box) + length ms ≤ box.buffer_size)
      → (q : MessagePriority) → channel q (send_all ms box) ≡ channel q box ++ of_priority q ms
  channel-send_all [] box alive room q = sym (append-nil (channel q box))
  channel-send_all (m ∷ ms) box alive room q =
      let box' = push m box in
      let (size, receiver) = other_fields m.priority (channel m.priority box ++ m ∷ []) box in
      let b = λ (p : MessagePriority). as_u8 m.priority == as_u8 p in
      let pushed = λ (p : MessagePriority). channel-push p m.priority m box in
      ap (λ x. channel q (send_all ms x))
        (try_send-push m box alive (omega (arith, room m.priority)))
      ∙ channel-send_all ms box' (receiver ∙ alive)
          (λ p. omega (
            arith,
            room p,
            size,
            ap length (pushed p),
            length-append (channel p box) (if b p then m ∷ [] else []),
            length-if (b p) m,
          ))
          q
      ∙ ap (λ l. l ++ of_priority q ms) (pushed q)
      ∙ append_assoc (channel q box) (if b q then m ∷ [] else []) (of_priority q ms)
      ∙ ap (◌++◌ (channel q box)) (if-append (b q) m (of_priority q ms))

  same_list : (l l' : List (A2AMessage P)) → l ≡ l' → elim l [ [] ↦ l' | m ∷ ms ↦ m ∷ ms ] ≡ l'
  same_list [] l' h = refl
  same_list (m ∷ ms) l' h = h

  receive_all-queued :
      (n : ℕ) (box : Mailbox P)
      → n ≤ length (queued box)
      → receive_all n box ≡ map message (take n (queued box))
  receive_all-queued zero box h = refl
  receive_all-queued (suc n) box h =
      let (got, left) = recv-queued [] box in
      let all = same_list (queued box) (queued box) refl in
      by_list (queued box) (got ∙ ap next_message all) (left ∙ ap (drop 1) all) h
        (λ le. receive_all-queued n (recv [] false [] box).1 le)
    where
      by_list :
          (l : List (A2AMessage P))
          → (recv [] false [] box).0 ≡ next_message l
          → queued (recv [] false [] box).1 ≡ drop 1 l
          → suc n ≤ length l
          → (n ≤ length (queued (recv [] false [] box).1)
              → receive_all n (recv [] false [] box).1
                ≡ map message (take n (queued (recv [] false [] box).1)))
          → receive_all (suc n) box ≡ map message (take (suc n) l)
      by_list [] got left le rest = absurd (omega arith)
      by_list (m ∷ ms) got left le rest =
          ap (λ x. x ∷ receive_all n (recv [] false [] box).1) got
          ∙ ap (◌∷◌ (message m)) (
              rest (subst (λ l. n ≤ length l) (sym left) (omega (arith, le)))
              ∙ ap (λ l. map message (take n l)) left)

  take_all : (n : ℕ) (l : List (A2AMessage P)) → n ≡ length l → take n l ≡ l
  take_all zero [] h = refl
  take_all zero (m ∷ l) h = absurd (omega arith)
  take_all (suc n) [] h = absurd (omega arith)
  take_all (suc n) (m ∷ l) h = ap (◌∷◌ m) (take_all n l (omega (arith, h)))

  length-of_priority :
      (q : MessagePriority) (m : A2AMessage P) (ms : List (A2AMessage P))
      → length (of_priority q (m ∷ ms)) ≡ count m.priority q + length (of_priority q ms)
  length-of_priority q m ms = by_test (as_u8 m.priority == as_u8 q)
    where
      by_test :
          (b : Bool)
          → length (if b then m ∷ of_priority q ms else of_priority q ms)
            ≡ (if b then 1 else 0) + length (of_priority q ms)
      by_test true = omega arith
      by_test false = omega arith

  abbrev total : List (A2AMessage P) → ℕ
  total ms =
      length (of_priority critical ms)
      + (length (of_priority high ms)
          + (length (of_priority normal ms)
              + (length (of_priority low ms) + length (of_priority background ms))))

  total-length : (ms : List (A2AMessage P)) → total ms ≡ length ms
  total-length [] = refl
  total-length (m ∷ ms) = omega (
    arith,
    length-of_priority critical m ms,
    length-of_priority high m ms,
    length-of_priority normal m ms,
    length-of_priority low m ms,
    length-of_priority background m ms,
    one_priority m.priority,
    total-length ms,
  )

  length-by_priority : (ms : List (A2AMessage P)) → length (by_priority ms) ≡ length ms
  length-by_priority ms =
      let last = of_priority low ms ++ of_priority background ms in
      length-append (of_priority critical ms)
        (of_priority high ms ++ (of_priority normal ms ++ last))
      ∙ ap (◌+◌ (length (of_priority critical ms))) (
          length-append (of_priority high ms) (of_priority normal ms ++ last)
          ∙ ap (◌+◌ (length (of_priority high ms))) (
              length-append (of_priority normal ms) last
              ∙ ap (◌+◌ (length (of_priority normal ms)))
                  (length-append (of_priority low ms) (of_priority background ms))))
      ∙ total-length ms

  channel-new_mailbox : (size : ℕ) (p : MessagePriority) → channel p (new_mailbox {P = P} size) ≡ []
  channel-new_mailbox size critical = refl
  channel-new_mailbox size high = refl
  channel-new_mailbox size normal = refl
  channel-new_mailbox size low = refl
  channel-new_mailbox size background = refl

  queued-send_all :
      (size : ℕ) (ms : List (A2AMessage P))
      → length ms ≤ size
      → queued (send_all ms (new_mailbox size)) ≡ by_priority ms
  queued-send_all size ms room =
      rw (sent critical)
        (rw (sent high) (rw (sent normal) (rw (sent low) (rw (sent background) refl))))
    where
      sent :
          (q : MessagePriority)
          → channel q (send_all ms (new_mailbox size))
            ≡ channel q (new_mailbox size) ++ of_priority q ms
      sent =
          channel-send_all ms (new_mailbox size) refl
            (λ p. omega (arith, room, ap length (channel-new_mailbox size p)))

  -- Messages sent to a new mailbox that has room for them are received sorted by priority, those of
  -- one priority in the order in which they were sent.
  pub receive_all-send_all :
      (size : ℕ) (ms : List (A2AMessage P))
      → length ms ≤ size
      → receive_all (length ms) (send_all ms (new_mailbox size)) ≡ map message (by_priority ms)
  receive_all-send_all size ms room =
      let box = send_all ms (new_mailbox {P = P} size) in
      let same = queued-send_all size ms room in
      let le = length-by_priority ms in
      receive_all-queued (length ms) box (omega (arith, ap length same, le))
      ∙ ap (λ l. map message (take (length ms) l)) same
      ∙ ap (map message) (take_all (length ms) (by_priority ms) (sym le))
