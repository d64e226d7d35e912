-- ===== src/Loop/StopConditions.antt =====
-- crates/claw-loop/src/stop_conditions.rs: the conditions as tests of the loop's state.
use claw_kernel.Prelude.{ℕ, Bool, false, ◌&&◌, ltb, leb, List, [], ◌∷◌, ◌||◌}
use claw_kernel.Loop.Types.{LoopState}

abbrev pub StopCondition : Type 0
StopCondition = LoopState → Bool

unfoldable pub max_turns_condition : ℕ → StopCondition
max_turns_condition n s = leb n s.turn

unfoldable pub token_budget_condition : ℕ → StopCondition
token_budget_condition budget s = ltb 0 budget && leb budget s.usage.total_tokens

unfoldable pub no_tool_call_condition : StopCondition
no_tool_call_condition s = false

-- The loop over the conditions stops at the first that holds.
unfoldable pub any_stops : List StopCondition → LoopState → Bool
any_stops [] s = false
any_stops (c ∷ cs) s = c s || any_stops cs s
