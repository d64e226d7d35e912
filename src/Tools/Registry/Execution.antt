-- ===== src/Tools/Registry/Execution.antt =====
-- crates/claw-tools/src/registry.rs: `ToolRegistry::execute`.
pub mod Safety
pub mod Outcomes
pub mod Steps
use claw_kernel.Prelude.{
  ℕ, ◌+◌, ◌%◌, Bool, true, false, Option, none, some, List, [], ◌∷◌, ◌++◌, String, if◌then◌else◌,
  Result, ok, err, ◌>>=◌,
}
use Prim.Native.String.{◌++◌ as ◌+++◌}
use claw_kernel.Prelude.KeyedMap.{KeyedMap}
use claw_kernel.Retry.{u64}
use claw_kernel.Tools.Types.{
  timeout_error, ToolResult, tool_err, Tool, LoadedToolMeta, RegistryExecutionMode, safe, power,
  ToolContext, LogEntry, RegistryError, tool_not_found, execution_error,
}
use claw_kernel.Tools.Permissions.{Glob, check_permissions}
use claw_kernel.Tools.Registry.{
  AuditEvent, audit_call, audit_result, Effect, published_called, published_result, audited,
  applied_sandbox, started_tool, World, ToolRegistry, effective_mode, error_code, task_result,
  tool_timeout, Ran, when, Answer, refuse, insert_log,
}

module _ {T S J : Type 0} (tool_ops : KeyedMap T (Tool J)) (script_ops : KeyedMap S LoadedToolMeta)
    (glob : Glob) where
  -- `sandbox_state.get_or_init`: the applier is called only when nothing is stored.
  unfoldable pub get_or_init :
      Option (Result String (Unit {0}))
      → World J
      → ToolRegistry T S
      → Ran (ToolRegistry T S) J (Result String (Unit {0}))
  get_or_init (some stored) w r = record { registry = r; effects = []; returned = stored }
  get_or_init none w r = record {
    registry = record r { sandbox_state = some w.sandbox };
    effects = applied_sandbox ∷ [];
    returned = w.sandbox;
  }

  -- With an applier or without one.
  unfoldable pub apply_safe_mode :
      Bool → World J → ToolRegistry T S → Ran (ToolRegistry T S) J (Result String (Unit {0}))
  unfolding get_or_init
  apply_safe_mode true w r = get_or_init r.sandbox_state w r
  apply_safe_mode false w r = record { registry = r; effects = []; returned = ok tt }

  -- Step 2.5: the sandbox, in safe mode only.
  unfoldable pub apply_sandbox :
      RegistryExecutionMode
      → World J
      → ToolRegistry T S
      → Ran (ToolRegistry T S) J (Result String (Unit {0}))
  unfolding apply_safe_mode
  apply_sandbox power w r = record { registry = r; effects = []; returned = ok tt }
  apply_sandbox safe w r = apply_safe_mode r.has_sandbox_applier w r

  -- The result of a call is published, logged and sent to the audit writer.
  unfoldable pub conclude :
      World J
      → String
      → String
      → ℕ
      → ToolResult J
      → Option String
      → ToolRegistry T S
      → Answer {J = J} tool_ops script_ops (ToolResult J)
  conclude w agent_id name call_id result code r = record {
    registry =
        insert_log tool_ops script_ops
          (record {
            timestamp_ms = w.logged_at;
            agent_id = agent_id;
            tool_name = name;
            success = result.success;
            duration_ms = w.elapsed_ms;
          })
          r;
    effects =
        when r.has_publisher (published_result agent_id name call_id result.success)
        ++ when r.has_audit_writer
            (audited (audit_result w.audited_at agent_id name result.success w.elapsed_ms code));
    returned = ok result;
  }

  unfoldable pub finish :
      World J
      → String
      → String
      → ℕ
      → Option (ToolResult J)
      → ToolRegistry T S
      → Answer {J = J} tool_ops script_ops (ToolResult J)
  unfolding conclude
  finish w agent_id name call_id (some result) r =
      conclude w agent_id name call_id result (error_code result.error) r
  finish w agent_id name call_id none r =
      conclude w agent_id name call_id (tool_err timeout_error w.elapsed_ms) (some "timeout") r

  -- Step 3: the call is numbered, announced, run and concluded.
  unfoldable pub run_tool :
      World J
      → String
      → J
      → ToolContext
      → Tool J
      → ToolRegistry T S
      → Answer {J = J} tool_ops script_ops (ToolResult J)
  unfolding finish task_result tool_timeout
  run_tool w name args ctx tool r =
      let call_id = r.audit_counter in
      let announced =
        when r.has_publisher (published_called ctx.agent_id name call_id)
        ++ when r.has_audit_writer (audited (audit_call w.called_at ctx.agent_id name (some args)))
        ++ started_tool name args ctx (tool_timeout tool.timeout_ms) ∷ [] in
      let done =
        finish w ctx.agent_id name call_id (task_result w.ending)
          (record r { audit_counter = (call_id + 1) % u64 }) in
      record done { effects = announced ++ done.effects }

  abbrev pub permission_result :
      RegistryExecutionMode → String → Tool J → ToolContext → Result RegistryError (Unit {0})
  permission_result power name tool ctx = ok tt
  permission_result safe name tool ctx =
      check_permissions glob name tool.permissions ctx.permissions

  -- After the sandbox: its error refuses the call, then the permissions do.
  unfoldable pub checked_run :
      World J
      → String
      → J
      → ToolContext
      → Tool J
      → Result String (Unit {0})
      → Result RegistryError (Unit {0})
      → ToolRegistry T S
      → Answer {J = J} tool_ops script_ops (ToolResult J)
  unfolding run_tool
  checked_run w name args ctx tool (err msg) permitted r =
      refuse tool_ops script_ops r
        (execution_error ("OS sandbox apply failed — tool execution refused for safety: " +++ msg))
  checked_run w name args ctx tool (ok u) (err e) r = refuse tool_ops script_ops r e
  checked_run w name args ctx tool (ok u) (ok v) r = run_tool w name args ctx tool r

  -- Steps 2.5 and on, in the effective mode.
  unfoldable pub execute_in :
      RegistryExecutionMode
      → World J
      → String
      → J
      → ToolContext
      → Tool J
      → ToolRegistry T S
      → Answer {J = J} tool_ops script_ops (ToolResult J)
  unfolding apply_sandbox checked_run
  execute_in mode w name args ctx tool r =
      let sandboxed = apply_sandbox mode w r in
      let done =
        checked_run w name args ctx tool sandboxed.returned (permission_result mode name tool ctx)
          sandboxed.registry in
      record done { effects = sandboxed.effects ++ done.effects }

  -- Step 1 gives the tool, or there is none.
  unfoldable pub execute_found :
      Option (Tool J)
      → World J
      → String
      → J
      → ToolContext
      → ToolRegistry T S
      → Answer {J = J} tool_ops script_ops (ToolResult J)
  unfolding execute_in effective_mode
  execute_found none w name args ctx r = refuse tool_ops script_ops r (tool_not_found name)
  execute_found (some tool) w name args ctx r =
      execute_in (effective_mode r.global_mode ctx.execution_mode) w name args ctx tool r

  unfoldable pub execute :
      World J
      → String
      → J
      → ToolContext
      → ToolRegistry T S
      → Answer {J = J} tool_ops script_ops (ToolResult J)
  unfolding execute_found
  execute w name args ctx r = execute_found (tool_ops.get name r.tools) w name args ctx r
