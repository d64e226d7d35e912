-- ===== src/Tools/Registry.antt =====
-- crates/claw-tools/src/registry.rs: `ToolRegistry`. What an operation does outside the registry
-- (events published, records sent to the audit writer, the sandbox applied, a tool started) is a
-- list of effects in the order of the code. The run of a tool, the clock, glob patterns and the
-- sandbox are not of this repository: `World` holds what they answer in one call of `execute`.
pub mod Scripts
pub mod Execution
pub mod Histories
use claw_kernel.Prelude.{
  ℕ, ◌+◌, ◌%◌, ◌≡◌, Bool, true, false, Option, none, some, List, [], ◌∷◌, ◌++◌, String,
  if◌then◌else◌, ◌==◌, is_some, Result, ok, err,
}
use Prim.Native.String.{◌++◌ as ◌+++◌}
use claw_kernel.Prelude.KeyedMap.{KeyedMap}
use claw_kernel.Retry.{u64}
use claw_kernel.Tools.Types.{
  ToolErrorCode, invalid_parameter, execution_failed, timeout, permission_denied,
  resource_not_found, rate_limited, internal_error, ToolError, timeout_error, internal, ToolResult,
  tool_err, Tool, ToolMeta, native, LoadedToolMeta, RegistryExecutionMode, safe, power, ToolContext,
  LogEntry, RegistryError, tool_not_found, already_exists, execution_error,
}
use claw_kernel.Tools.Permissions.{Glob, check_permissions}
use claw_kernel.Tools.AuditLog.{insert_key, evict}

pub data AuditEvent (J : Type 0) : Type 0 where
  audit_call : (timestamp_ms : ℕ) (agent_id tool_name : String) (args : Option J) → AuditEvent J
  audit_result :
      (timestamp_ms : ℕ) (agent_id tool_name : String) (success : Bool) (duration_ms : ℕ)
      (error_code : Option String)
      → AuditEvent J
  mode_switch : (timestamp_ms : ℕ) (agent_id from_mode to_mode reason : String) → AuditEvent J

-- A call identifier is the number `n` of the text `call-n`.
pub data Effect (J : Type 0) : Type 0 where
  published_registered : (name source : String) → Effect J
  published_unregistered : (name : String) → Effect J
  published_called : (agent_id name : String) (call_id : ℕ) → Effect J
  published_result : (agent_id name : String) (call_id : ℕ) (success : Bool) → Effect J
  audited : AuditEvent J → Effect J
  applied_sandbox : Effect J
  started_tool : (name : String) (args : J) (ctx : ToolContext) (timeout_ms : ℕ) → Effect J

-- How the spawned task of a tool ends: with the tool's result, by a panic or a cancellation, by
-- another error of the join, without a task, or not within the timeout.
pub data Ending (J : Type 0) : Type 0 where
  completed : ToolResult J → Ending J
  aborted : (join_err : String) (elapsed_ms : ℕ) → Ending J
  join_failed : (join_err : String) (elapsed_ms : ℕ) → Ending J
  not_spawned : (elapsed_ms : ℕ) → Ending J
  timed_out : Ending J

pub record World (J : Type 0) : Type 0 where
  pub sandbox : Result String (Unit {0})
  pub ending : Ending J
  pub elapsed_ms : ℕ
  pub called_at : ℕ
  pub logged_at : ℕ
  pub audited_at : ℕ

pub record ToolRegistry (T S : Type 0) : Type 0 where
  pub tools : T
  pub audit_log : List (ℕ × LogEntry)
  pub max_audit_entries : ℕ
  pub audit_counter : ℕ
  pub script_tools : S
  pub has_publisher : Bool
  pub has_audit_writer : Bool
  pub has_sandbox_applier : Bool
  pub sandbox_state : Option (Result String (Unit {0}))
  pub global_mode : RegistryExecutionMode

-- Of the two modes only the global one counts.
unfoldable pub effective_mode :
    RegistryExecutionMode → RegistryExecutionMode → RegistryExecutionMode
effective_mode power requested = power
effective_mode safe requested = safe

abbrev pub code_name : ToolErrorCode → String
code_name invalid_parameter = "InvalidParameter"
code_name execution_failed = "ExecutionFailed"
code_name timeout = "Timeout"
code_name permission_denied = "PermissionDenied"
code_name resource_not_found = "ResourceNotFound"
code_name rate_limited = "RateLimited"
code_name internal_error = "InternalError"

abbrev pub error_code : Option ToolError → Option String
error_code none = none
error_code (some e) = some (code_name e.code)

-- The result of a task that ended in time.
unfoldable pub task_result : {J : Type 0} → Ending J → Option (ToolResult J)
task_result (completed result) = some result
task_result (aborted join_err ms) = some (tool_err (internal ("Task error: " +++ join_err)) ms)
task_result (join_failed join_err ms) =
    some (tool_err (internal ("Task join error: " +++ join_err)) ms)
task_result (not_spawned ms) = some (tool_err (internal "Task not spawned") ms)
task_result timed_out = none

unfoldable pub tool_timeout : ℕ → ℕ
tool_timeout raw_timeout = if raw_timeout == 0 then 30000 else raw_timeout

-- What an operation leaves: the registry, the effects, and what it returns.
pub record Ran (R J A : Type 0) : Type 0 where
  pub registry : R
  pub effects : List (Effect J)
  pub returned : A

abbrev pub when : {A : Type 0} → Bool → A → List A
when b e = if b then e ∷ [] else []

module _ {T S J : Type 0} (tool_ops : KeyedMap T (Tool J))
    (script_ops : KeyedMap S LoadedToolMeta) where
  unfoldable pub new : ToolRegistry T S
  new = record {
    tools = tool_ops.empty;
    audit_log = [];
    max_audit_entries = 10000;
    audit_counter = 1;
    script_tools = script_ops.empty;
    has_publisher = false;
    has_audit_writer = false;
    has_sandbox_applier = false;
    sandbox_state = none;
    global_mode = safe;
  }

  unfoldable pub with_max_audit_entries : ℕ → ToolRegistry T S → ToolRegistry T S
  with_max_audit_entries n r = record r { max_audit_entries = n }

  unfoldable pub with_event_publisher : ToolRegistry T S → ToolRegistry T S
  with_event_publisher r = record r { has_publisher = true }

  unfoldable pub with_audit_writer : ToolRegistry T S → ToolRegistry T S
  with_audit_writer r = record r { has_audit_writer = true }

  unfoldable pub with_sandbox_applier : ToolRegistry T S → ToolRegistry T S
  with_sandbox_applier r = record r { has_sandbox_applier = true }

  -- `Result<(), RegistryError>` with the registry and the effects.
  abbrev pub Answer : Type 0 → Type 0
  Answer A = Ran (ToolRegistry T S) J (Result RegistryError A)

  abbrev pub refuse : {A : Type 0} → ToolRegistry T S → RegistryError → Answer A
  refuse r e = record { registry = r; effects = []; returned = err e }

  unfoldable pub register : Tool J → ToolRegistry T S → Answer (Unit {0})
  register tool r =
      if is_some (tool_ops.get tool.name r.tools)
      then refuse r (already_exists tool.name)
      else record {
        registry = record r { tools = tool_ops.insert tool.name tool r.tools };
        effects = when r.has_publisher (published_registered tool.name "native");
        returned = ok tt;
      }

  unfoldable pub unregister : String → ToolRegistry T S → Answer (Unit {0})
  unregister name r =
      if is_some (tool_ops.get name r.tools)
      then record {
        registry = record r { tools = tool_ops.remove name r.tools };
        effects = when r.has_publisher (published_unregistered name);
        returned = ok tt;
      }
      else refuse r (tool_not_found name)

  unfoldable pub update : String → Tool J → ToolRegistry T S → Answer (Unit {0})
  update name tool r = record {
    registry = record r { tools = tool_ops.insert name tool r.tools };
    effects = [];
    returned = ok tt;
  }

  unfoldable pub tool_meta : String → ToolRegistry T S → Option (ToolMeta J)
  tool_meta name r = elim (tool_ops.get name r.tools) [
    | none ↦ none
    | some t ↦ some (record {
      schema = t.schema;
      permissions = t.permissions;
      timeout_ms = t.timeout_ms;
      source = native;
    })
  ]

  unfoldable pub tool_count : ToolRegistry T S → ℕ
  tool_count r = tool_ops.len r.tools

  -- `verified` is the answer of the stored hash to the power key.
  unfoldable pub enter_power_mode :
      (verified : Bool) (now : ℕ) → ToolRegistry T S → Answer (Unit {0})
  enter_power_mode verified now r =
      if verified
      then record {
        registry = record r { global_mode = power };
        effects =
            when r.has_audit_writer
              (audited (mode_switch now "system" "safe" "power" "power_key_verified"));
        returned = ok tt;
      }
      else refuse r (execution_error "invalid power key: cannot enter Power Mode")

  -- The end of a `PowerModeGuard`.
  unfoldable pub drop_guard : ToolRegistry T S → ToolRegistry T S
  drop_guard r = record r { global_mode = safe }

  unfoldable pub unload : String → ToolRegistry T S → Answer (Unit {0})
  unfolding unregister
  unload name r =
      unregister name (record r { script_tools = script_ops.remove name r.script_tools })

  unfoldable pub insert_log : LogEntry → ToolRegistry T S → ToolRegistry T S
  insert_log entry r = record r {
    audit_counter = (r.audit_counter + 1) % u64;
    audit_log = evict r.max_audit_entries (insert_key r.audit_counter entry r.audit_log);
  }
