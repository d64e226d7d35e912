-- ===== src/Examples/ToolRegistries.antt =====
-- The tool registry, its permissions and power keys at concrete inputs.
use claw_kernel.Prelude.{
  ◌≡◌, refl, ◌↔◌, true, none, some, List, [], ◌∷◌, ◌++◌, String, if◌then◌else◌, is_some, ok, arith,
}
use claw_kernel.Prelude.KeyedMap.{assoc_map}
use claw_kernel.Tools.Types.{
  tool_ok, Tool, LoadedToolMeta, PermissionSet, no_network, denied, lua, script, power, ToolContext,
  LogEntry, ToolMeta, minimal,
}
use claw_kernel.Tools.Permissions.{Glob, check_permissions}
use claw_kernel.Tools.Permissions.Permitted.{Permitted}
use claw_kernel.Tools.AuditLog.Newest.{KeepsNewest}
use claw_kernel.Tools.Registry.{
  World, completed, ToolRegistry, Effect, register, task_result, tool_timeout, insert_log, new,
  with_max_audit_entries, with_event_publisher, with_audit_writer, with_sandbox_applier,
  effective_mode,
}
use claw_kernel.Tools.Registry.Execution.{
  execute, execute_found, execute_in, checked_run, apply_sandbox, apply_safe_mode, get_or_init,
  run_tool, finish, conclude,
}
use claw_kernel.Tools.Registry.Scripts.{
  ScriptFile, load_from_script, load_content, load_language, load_named, store_script, language_of,
  UnloadRefuses, load_then_unload,
}
use claw_kernel.Tools.Registry.Histories.{
  Op, registers, executes, configured, step, writes, Reach, started, next,
}
use claw_kernel.Tools.Registry.Histories.Measures.{call_ids, result_ids, applications, Rising}
use claw_kernel.Tools.Registry.Histories.Invariants.{log-KeepsNewest, calls_answered, sandbox_once}
use claw_kernel.Tools.Registry.Histories.Modes.{Unlocked, power_mode-Unlocked}

abbrev Tools : Type 0
Tools = List (String × Tool String)

abbrev Scripts : Type 0
Scripts = List (String × LoadedToolMeta)

no_globs : Glob
no_globs pattern = none

abbrev reads_notes : PermissionSet
reads_notes = record {
  filesystem = record { read_paths = "/notes" ∷ []; write_paths = [] };
  network = no_network;
  subprocess = denied;
}

abbrev reader : Tool String
reader = record {
  name = "read";
  schema = record { name = "read"; description = "reads a file"; parameters = "{}" };
  permissions = reads_notes;
  timeout_ms = 0;
}

abbrev caller : ToolContext
caller = record { agent_id = "a"; permissions = reads_notes; execution_mode = power }

abbrev world : World String
world = record {
  sandbox = ok tt;
  ending = completed (tool_ok "text" 3);
  elapsed_ms = 4;
  called_at = 10;
  logged_at = 14;
  audited_at = 15;
}

abbrev registry0 : ToolRegistry Tools Scripts
registry0 = configured {J = String} assoc_map assoc_map no_globs "{}" true true true 5

abbrev do_op :
    Op String → ToolRegistry Tools Scripts → ToolRegistry Tools Scripts × List (Effect String)
do_op = step assoc_map assoc_map no_globs "{}"

abbrev call : Op String
call = executes world "read" "{}" caller

abbrev registered : ToolRegistry Tools Scripts × List (Effect String)
registered = do_op (registers reader) registry0

abbrev called : ToolRegistry Tools Scripts × List (Effect String)
called = do_op call registered.0

abbrev effects : List (Effect String)
effects = ([] ++ registered.1) ++ called.1

abbrev written : List LogEntry
written =
    ([]
      ++ writes {T = Tools} {S = Scripts} assoc_map assoc_map no_globs "{}" (registers reader)
          registered.1)
    ++ writes {T = Tools} {S = Scripts} assoc_map assoc_map no_globs "{}" call called.1

reached :
    Reach assoc_map assoc_map no_globs "{}" 5
      (call ∷ registers reader ∷ [])
      called.0
      effects
      written
reached = next call (next (registers reader) (started true true true))

-- The call is numbered 1, published and answered.
call_published : call_ids effects ≡ 1 ∷ []
unfolding step configured new with_max_audit_entries with_event_publisher with_audit_writer
    with_sandbox_applier register execute execute_found execute_in checked_run apply_sandbox
    apply_safe_mode get_or_init effective_mode run_tool finish conclude task_result tool_timeout
    insert_log check_permissions
call_published = refl

log-KeepsNewest_example : KeepsNewest 5 written called.0.audit_counter called.0.audit_log
log-KeepsNewest_example = log-KeepsNewest assoc_map assoc_map no_globs "{}" (omega arith) reached

calls_answered_example :
    (call_ids effects ≡ result_ids effects) × Rising 1 called.0.audit_counter (call_ids effects)
calls_answered_example = calls_answered assoc_map assoc_map no_globs "{}" (omega arith) reached

sandbox_once_example : applications effects ≡ (if is_some called.0.sandbox_state then 1 else 0)
sandbox_once_example = sandbox_once assoc_map assoc_map no_globs "{}" reached

power_mode-Unlocked_example :
    (called.0.global_mode ≡ power) ↔ Unlocked (call ∷ registers reader ∷ [])
power_mode-Unlocked_example = power_mode-Unlocked assoc_map assoc_map no_globs "{}" reached

abbrev greet : ScriptFile
greet = record {
  path = "tools/greet.lua";
  exists = true;
  content = ok "return 1";
  extension = some "lua";
  file_stem = some "greet";
  loaded_at = 7;
}

abbrev greet_meta : ToolMeta String
greet_meta = record {
  schema = record {
    name = "greet";
    description = "Script tool from tools/greet.lua";
    parameters = "{}";
  };
  permissions = minimal;
  timeout_ms = 30000;
  source = script "tools/greet.lua" lua;
}

greet_loads :
    (load_from_script {T = Tools} {S = Scripts} assoc_map assoc_map "{}" greet registry0).1
    ≡ ok greet_meta
unfolding load_from_script load_content load_language load_named store_script language_of
greet_loads = refl

greet_free : assoc_map.get "greet" registry0.tools ≡ none
unfolding configured new with_max_audit_entries with_event_publisher with_audit_writer
    with_sandbox_applier
greet_free = refl

load_then_unload_example :
    UnloadRefuses {T = Tools} {S = Scripts} {J = String} assoc_map assoc_map "{}" "greet"
      (load_from_script assoc_map assoc_map "{}" greet registry0).0
load_then_unload_example =
    load_then_unload assoc_map assoc_map "{}" greet registry0 greet_meta greet_loads greet_free
