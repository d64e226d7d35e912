-- ===== src/Tools/Registry/Histories/Moves.antt =====
-- What one operation may do to the log, the counter, the sandbox and the published calls.
use claw_kernel.Prelude.{◌≡◌, refl, ap, Bool, true, false, List, [], String, if◌then◌else◌, is_some}
use claw_kernel.Prelude.KeyedMap.{KeyedMap}
use claw_kernel.Prelude.Membership.{all}
use claw_kernel.Tools.Types.{Tool, LoadedToolMeta, LogEntry, ToolContext}
use claw_kernel.Tools.Permissions.{Glob}
use claw_kernel.Tools.Registry.{
  audited, Effect, published_registered, published_unregistered, World, ToolRegistry, Ran, when,
  register, unregister, update, enter_power_mode, drop_guard, unload,
}
use claw_kernel.Tools.Registry.Execution.Outcomes.{Called}
use claw_kernel.Tools.Registry.Execution.Steps.{execute-Called}
use claw_kernel.Tools.Registry.Scripts.{
  ScriptFile, load_from_script, load_from_script-ChangesScripts,
}
use claw_kernel.Tools.Registry.Histories.{
  Op, registers, unregisters, updates, enters, drops, unloads, loads, executes, step, writes,
}

-- Effects that tell nothing of calls and of the sandbox.
abbrev pub is_quiet : {J : Type 0} → Effect J → Bool
is_quiet (published_registered name source) = true
is_quiet (published_unregistered name) = true
is_quiet (audited event) = true
is_quiet e = false

quiet_when :
    {J : Type 0} (b : Bool) (e : Effect J) → is_quiet e ≡ true → all (when b e) is_quiet ≡ true
quiet_when true e h = rw h refl
quiet_when false e h = refl

module _ {T S J : Type 0} where
  -- The log, the counter and the sandbox stay as they are.
  pub record Kept (r r' : ToolRegistry T S) (es : List (Effect J)) : Type 0 where
    pub audit_log : r'.audit_log ≡ r.audit_log
    pub audit_counter : r'.audit_counter ≡ r.audit_counter
    pub max_audit_entries : r'.max_audit_entries ≡ r.max_audit_entries
    pub sandbox_state : r'.sandbox_state ≡ r.sandbox_state
    pub quiet : all es is_quiet ≡ true

  pub data Moves (r : ToolRegistry T S)
      : ToolRegistry T S → List (Effect J) → List LogEntry → Type 0 where
    kept : {r' : ToolRegistry T S} {es : List (Effect J)} → Kept r r' es → Moves r r' es []
    called :
        {r' : ToolRegistry T S} {es : List (Effect J)} {written : List LogEntry} (w : World J)
        (name : String) (args : J) (ctx : ToolContext)
        → Called w name args ctx r r' es written
        → Moves r r' es written

  Kept-if :
      {A : Type 0} (b : Bool) (r : ToolRegistry T S) (x y : Ran (ToolRegistry T S) J A)
      → Kept r x.registry x.effects
      → Kept r y.registry y.effects
      → let done = if b then x else y in Kept r done.registry done.effects
  Kept-if true r x y hx hy = hx
  Kept-if false r x y hx hy = hy

  quietly :
      (r r' : ToolRegistry T S) (es : List (Effect J))
      → r'.audit_log ≡ r.audit_log
      → r'.audit_counter ≡ r.audit_counter
      → r'.max_audit_entries ≡ r.max_audit_entries
      → r'.sandbox_state ≡ r.sandbox_state
      → all es is_quiet ≡ true
      → Kept r r' es
  quietly r r' es a b c d q = record {
    audit_log = a;
    audit_counter = b;
    max_audit_entries = c;
    sandbox_state = d;
    quiet = q;
  }

module _ {T S J : Type 0} (tool_ops : KeyedMap T (Tool J)) (script_ops : KeyedMap S LoadedToolMeta)
    (glob : Glob) (object_schema : J) where
  unregister-Kept :
      (name : String) (r r0 : ToolRegistry T S)
      → Kept {J = J} r0 r []
      → let done = unregister tool_ops script_ops name r in Kept r0 done.registry done.effects
  unfolding unregister
  unregister-Kept name r r0 k =
      Kept-if (is_some (tool_ops.get name r.tools)) r0 _ _
        (quietly _ _ _ k.audit_log k.audit_counter k.max_audit_entries k.sandbox_state
          (quiet_when r.has_publisher _ refl))
        k

  load_from_script-Kept :
      (f : ScriptFile) (r : ToolRegistry T S)
      → Kept {J = J} r (load_from_script tool_ops script_ops object_schema f r).0 []
  load_from_script-Kept f r =
      let same = load_from_script-ChangesScripts tool_ops script_ops object_schema f r in
      quietly _ _ _ (ap (λ x. x.audit_log) same) (ap (λ x. x.audit_counter) same)
        (ap (λ x. x.max_audit_entries) same) (ap (λ x. x.sandbox_state) same) refl

  pub step-Moves :
      (op : Op J) (r : ToolRegistry T S)
      → let (r', es) = step tool_ops script_ops glob object_schema op r in
        Moves r r' es (writes tool_ops script_ops glob object_schema op es)
  unfolding step register update enter_power_mode drop_guard unload
  step-Moves (registers tool) r = kept (
      Kept-if (is_some (tool_ops.get tool.name r.tools)) r _ _
        (quietly _ _ _ refl refl refl refl refl)
        (quietly _ _ _ refl refl refl refl (quiet_when r.has_publisher _ refl)))
  step-Moves (unregisters name) r =
      kept (unregister-Kept name r r (quietly _ _ _ refl refl refl refl refl))
  step-Moves (updates name tool) r = kept (quietly _ _ _ refl refl refl refl refl)
  step-Moves (enters verified now) r = kept (
      Kept-if verified r _ _
        (quietly _ _ _ refl refl refl refl (quiet_when r.has_audit_writer _ refl))
        (quietly _ _ _ refl refl refl refl refl))
  step-Moves drops r = kept (quietly _ _ _ refl refl refl refl refl)
  step-Moves (unloads name) r =
      kept (unregister-Kept name _ r (quietly _ _ _ refl refl refl refl refl))
  step-Moves (loads f) r = kept (load_from_script-Kept f r)
  step-Moves (executes w name args ctx) r =
      called w name args ctx (execute-Called tool_ops script_ops glob w name args ctx r)
