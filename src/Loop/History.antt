-- ===== src/Loop/History.antt =====
-- crates/claw-loop/src/history.rs: `InMemoryHistory`. The estimate sums quarters of a token in
-- floating point, which is exact below 2 ^ 53 quarters; here they are counted.
use claw_kernel.Prelude.{
  ℕ, ◌+◌, ◌*◌, ◌/◌, ◌≡◌, refl, ap, ◌∙◌, Bool, true, false, Option, none, some, List, [], ◌∷◌, ◌++◌,
  String, if◌then◌else◌, ltb, leb, length, arith,
}
use Prim.Native.Char.{code}
use Prim.Native.String.{[] as end, ◌∷◌ as ◌∷ₛ◌}
use claw_kernel.Loop.Types.{Message, ToolCall}

pub record InMemoryHistory : Type 0 where
  pub messages : List Message
  pub overflow_threshold : ℕ
  pub has_callback : Bool

unfoldable pub new_history : ℕ → InMemoryHistory
new_history overflow_threshold = record {
  messages = [];
  overflow_threshold = overflow_threshold;
  has_callback = false;
}

unfoldable pub default_history : InMemoryHistory
unfolding new_history
default_history = new_history 100000

-- A quarter of a token for an ASCII character, a token for any other.
unfoldable pub quarters : String → ℕ
quarters end = 0
quarters (c ∷ₛ s) = (if ltb (code c) 128 then 1 else 4) + quarters s

abbrev call_count : Option (List ToolCall) → ℕ
call_count none = 0
call_count (some calls) = length calls

unfoldable pub message_tokens : Message → ℕ
unfolding quarters
message_tokens m = quarters m.content / 4 + 1 + call_count m.tool_calls * 50

unfoldable pub sum_tokens : List Message → ℕ
unfolding message_tokens
sum_tokens [] = 0
sum_tokens (m ∷ ms) = message_tokens m + sum_tokens ms

unfoldable pub token_estimate : InMemoryHistory → ℕ
unfolding sum_tokens
token_estimate h = sum_tokens h.messages

-- The calls of the callback, with the estimate and the threshold.
unfoldable pub check_overflow : InMemoryHistory → List (ℕ × ℕ)
unfolding token_estimate
check_overflow h =
    let estimate = token_estimate h in
    if h.has_callback
    then if leb h.overflow_threshold estimate then (estimate, h.overflow_threshold) ∷ [] else []
    else []

unfoldable pub append : Message → InMemoryHistory → InMemoryHistory × List (ℕ × ℕ)
unfolding check_overflow
append m h = let h' = record h { messages = h.messages ++ m ∷ [] } in (h', check_overflow h')

unfoldable pub clear : InMemoryHistory → InMemoryHistory
clear h = record h { messages = [] }

unfoldable pub set_overflow_callback : InMemoryHistory → InMemoryHistory
set_overflow_callback h = record h { has_callback = true }

-- The calls of the callback over messages appended one after the other.
unfoldable pub append_all : List Message → InMemoryHistory → List (ℕ × ℕ)
unfolding append
append_all [] h = []
append_all (m ∷ ms) h = let (h', calls) = append m h in calls ++ append_all ms h'

-- The totals of the tokens from `total` on, those that reach the threshold.
unfoldable pub overflows : (threshold total : ℕ) → List Message → List (ℕ × ℕ)
unfolding message_tokens
overflows threshold total [] = []
overflows threshold total (m ∷ ms) =
    let total' = total + message_tokens m in
    (if leb threshold total' then (total', threshold) ∷ [] else []) ++ overflows threshold total' ms

sum_tokens-append :
    (ms : List Message) (m : Message) → sum_tokens (ms ++ m ∷ []) ≡ sum_tokens ms + message_tokens m
unfolding sum_tokens
sum_tokens-append [] m = omega arith
sum_tokens-append (x ∷ ms) m = omega (arith, sum_tokens-append ms m)

-- With a callback set, messages appended one after the other call it exactly when the running total
-- of tokens is at least the threshold, with that total.
pub append_all-overflows :
    (ms : List Message) (h : InMemoryHistory)
    → append_all ms (set_overflow_callback h) ≡ overflows h.overflow_threshold (token_estimate h) ms
unfolding append_all append check_overflow token_estimate overflows set_overflow_callback
append_all-overflows [] h = refl
append_all-overflows (m ∷ ms) h =
    ap
      (λ total.
        (if leb h.overflow_threshold total then (total, h.overflow_threshold) ∷ [] else [])
        ++ append_all ms (record h { messages = h.messages ++ m ∷ []; has_callback = true }))
      (sum_tokens-append h.messages m)
    ∙ ap (◌++◌ _) (
        append_all-overflows ms (record h { messages = h.messages ++ m ∷ [] })
        ∙ ap (λ total. overflows h.overflow_threshold total ms) (sum_tokens-append h.messages m))
