-- ===== src/Tools/Registry/Histories.antt =====
-- The calls of a registry in sequence, with the effects and the log entries they leave.
pub mod Moves
pub mod Measures
pub mod Invariants
pub mod Modes
use claw_kernel.Prelude.{
  ℕ, ◌≡◌, refl, Bool, true, false, Option, none, some, List, [], ◌∷◌, ◌++◌, String, if◌then◌else◌,
  is_some, Result, ok, err,
}
use claw_kernel.Prelude.KeyedMap.{KeyedMap}
use claw_kernel.Prelude.Membership.{all}
use claw_kernel.Tools.Types.{ToolResult, Tool, LoadedToolMeta, ToolContext, LogEntry}
use claw_kernel.Tools.Permissions.{Glob}
use claw_kernel.Tools.Registry.{
  audited, Effect, published_registered, published_unregistered, World, ToolRegistry, Ran, when,
  new, with_max_audit_entries, with_event_publisher, with_audit_writer, with_sandbox_applier,
  register, unregister, update, enter_power_mode, drop_guard, unload,
}
use claw_kernel.Tools.Registry.Scripts.{ScriptFile, load_from_script}
use claw_kernel.Tools.Registry.Execution.{execute}
use claw_kernel.Tools.Registry.Execution.Outcomes.{logged}

pub data Op (J : Type 0) : Type 0 where
  registers : Tool J → Op J
  unregisters : String → Op J
  updates : String → Tool J → Op J
  enters : (verified : Bool) (now : ℕ) → Op J
  drops : Op J
  unloads : String → Op J
  loads : (f : ScriptFile) → Op J
  executes : (w : World J) (name : String) (args : J) (ctx : ToolContext) → Op J

module _ {T S J : Type 0} (tool_ops : KeyedMap T (Tool J)) (script_ops : KeyedMap S LoadedToolMeta)
    (glob : Glob) (object_schema : J) where
  -- A registry as the builder methods make it.
  unfoldable pub configured : (publisher writer applier : Bool) (max_entries : ℕ) → ToolRegistry T S
  configured publisher writer applier max_entries =
      let r0 = with_max_audit_entries tool_ops script_ops max_entries (new tool_ops script_ops) in
      let r1 = if publisher then with_event_publisher tool_ops script_ops r0 else r0 in
      let r2 = if writer then with_audit_writer tool_ops script_ops r1 else r1 in
      if applier then with_sandbox_applier tool_ops script_ops r2 else r2

  abbrev pub pair : {A : Type 0} → Ran (ToolRegistry T S) J A → ToolRegistry T S × List (Effect J)
  pair done = (done.registry, done.effects)

  unfoldable pub step : Op J → ToolRegistry T S → ToolRegistry T S × List (Effect J)
  step (registers tool) r = pair (register tool_ops script_ops tool r)
  step (unregisters name) r = pair (unregister tool_ops script_ops name r)
  step (updates name tool) r = pair (update tool_ops script_ops name tool r)
  step (enters verified now) r = pair (enter_power_mode tool_ops script_ops verified now r)
  step drops r = (drop_guard tool_ops script_ops r, [])
  step (unloads name) r = pair (unload tool_ops script_ops name r)
  step (loads f) r = ((load_from_script tool_ops script_ops object_schema f r).0, [])
  step (executes w name args ctx) r = pair (execute tool_ops script_ops glob w name args ctx r)

  -- The entries that an operation writes to the log.
  abbrev pub writes : Op J → List (Effect J) → List LogEntry
  writes (executes w name args ctx) effects = logged w name ctx effects
  writes (registers tool) effects = []
  writes (unregisters name) effects = []
  writes (updates name tool) effects = []
  writes (enters verified now) effects = []
  writes drops effects = []
  writes (unloads name) effects = []
  writes (loads f) effects = []

  -- A registry after operations, the newest first, with all their effects and log entries in order.
  pub data Reach (max_entries : ℕ)
      : List (Op J) → ToolRegistry T S → List (Effect J) → List LogEntry → Type 0 where
    started :
        (publisher writer applier : Bool)
        → Reach max_entries [] (configured publisher writer applier max_entries) [] []
    next :
        {ops : List (Op J)} {r : ToolRegistry T S} {es : List (Effect J)} {written : List LogEntry}
        (op : Op J)
        → Reach max_entries ops r es written
        → Reach max_entries
            (op ∷ ops)
            (step op r).0
            (es ++ (step op r).1)
            (written ++ writes op (step op r).1)
