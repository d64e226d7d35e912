-- ===== src/Examples/Messages.antt =====
-- The mailboxes and the router of agent messages at concrete inputs.
use claw_kernel.Prelude.{
  ◌≡◌, refl, false, none, Option, ◌⊎◌, some, List, [], ◌∷◌, String, drop, map, arith,
}
use claw_kernel.Prelude.KeyedMap.{assoc_map}
use claw_kernel.Runtime.A2a.{
  A2AMessage, event, new_message, with_priority, with_target, with_ttl, critical, low, is_expired,
}
use claw_kernel.Runtime.A2a.Mailbox.{message, new_mailbox, push, recv, try_send}
use claw_kernel.Runtime.A2a.Mailbox.Order.{queued, next_message, offered, recv-queued}
use claw_kernel.Runtime.A2a.Mailbox.Sorting.{
  send_all, receive_all, by_priority, receive_all-send_all,
}
use claw_kernel.Runtime.A2a.Mailbox.Loss.{recv_loses}
use claw_kernel.Runtime.A2a.Router.{
  AgentHandle, SimpleRouter, new_router, register_agent, route_message, broadcast_message,
}
use claw_kernel.Runtime.A2a.Router.Delivery.{Receives, broadcast_message-reaches}
use claw_kernel.Runtime.A2a.Router.Reachable.{Reach, registered, at_start}
use claw_kernel.Prelude.KeyedMap.Listing.{listing, listing-Lists}
use claw_kernel.Runtime.A2a.Router.RoundTrip.{received_by, register-route-recv}

abbrev note : String → A2AMessage String
note id = new_message 1000 id "a" event "payload"

abbrev urgent : A2AMessage String
urgent = with_priority critical (note "urgent")

abbrev later : A2AMessage String
later = with_priority low (note "later")

recv-queued_example :
    let box = push urgent (push later (new_mailbox 4)) in
    ((recv [] false [] box).0 ≡ next_message (offered [] box))
    × (queued (recv [] false [] box).1 ≡ drop 1 (offered [] box))
recv-queued_example = recv-queued [] (push urgent (push later (new_mailbox 4)))

receive_all-send_all_example :
    receive_all 3 (send_all (later ∷ note "n" ∷ urgent ∷ []) (new_mailbox 3))
    ≡ map message (by_priority (later ∷ note "n" ∷ urgent ∷ []))
receive_all-send_all_example = receive_all-send_all 3 (later ∷ note "n" ∷ urgent ∷ []) (omega arith)

urgent_first : by_priority (later ∷ note "n" ∷ urgent ∷ []) ≡ urgent ∷ note "n" ∷ later ∷ []
urgent_first = refl

recv_loses_example :
    recv (later ∷ []) false (urgent ∷ []) (new_mailbox 4) ≡ (message urgent, new_mailbox 4)
recv_loses_example = recv_loses later urgent 4 (omega arith)

abbrev Agents : Type 0
Agents = List (String × AgentHandle)

abbrev Router : Type 0
Router = SimpleRouter Agents String

abbrev registered_router : Option (Router × AgentHandle) → Router
registered_router none = new_router assoc_map listing
registered_router (some (r, handle)) = r

abbrev with_a : Router
with_a = registered_router (register_agent assoc_map listing "a" 4 (new_router assoc_map listing))

abbrev router : Router
router = registered_router (register_agent assoc_map listing "b" 4 with_a)

router-Reach : Reach assoc_map listing router
unfolding register_agent
router-Reach = registered "b" 4 (registered "a" 4 at_start refl) refl

broadcast_message-reaches_example :
    (Receives assoc_map listing urgent router 1
      × ((broadcast_message assoc_map listing urgent router).mailboxes 1
          ≡ (try_send urgent (router.mailboxes 1)).0))
    ⊎ (¬ Receives assoc_map listing urgent router 1
        × ((broadcast_message assoc_map listing urgent router).mailboxes 1 ≡ router.mailboxes 1))
broadcast_message-reaches_example =
    broadcast_message-reaches assoc_map listing urgent router listing-Lists router-Reach 1

abbrev direct : A2AMessage String
direct = with_ttl 5 (with_target "c" later)

direct_lives : is_expired 3000 direct ≡ false
unfolding is_expired
direct_lives = refl

register-route-recv_example :
    (r : Router) × (handle : AgentHandle) × (register_agent assoc_map listing "c" 2 router
      ≡ some (r, handle))
    × (received_by assoc_map listing handle (route_message assoc_map listing 3000 direct r)
        ≡ some (message direct))
register-route-recv_example =
    register-route-recv assoc_map listing "c" 2 3000 direct router (omega arith) direct_lives refl

-- A channel without room is a panic.
no_room : register_agent assoc_map listing "c" 0 router ≡ none
unfolding register_agent
no_room = refl
