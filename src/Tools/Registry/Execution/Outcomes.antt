-- ===== src/Tools/Registry/Execution/Outcomes.antt =====
-- A call of a tool as one step of the registry: it is refused, and at most the sandbox was applied,
-- or it runs, and it is numbered, announced, concluded and logged.
use claw_kernel.Prelude.{
  ℕ, ◌+◌, ◌%◌, Bool, false, Option, none, some, List, [], ◌∷◌, ◌++◌, String, if◌then◌else◌, Result,
}
use claw_kernel.Prelude.Membership.{any}
use claw_kernel.Retry.{u64}
use claw_kernel.Tools.Types.{ToolResult, ToolContext, LogEntry}
use claw_kernel.Tools.AuditLog.{insert_key, evict}
use claw_kernel.Tools.Registry.{
  audit_call, audit_result, Effect, published_called, published_result, audited, applied_sandbox,
  started_tool, World, ToolRegistry, when, task_result,
}
use claw_kernel.Tools.Registry.Execution.Safety.{is_start}

-- The sandbox before and after a call, with the effects of applying it.
pub data Applied {J : Type 0}
    : Option (Result String (Unit {0}))
      → Option (Result String (Unit {0}))
      → List (Effect J)
      → Type 0 where
  unchanged : {s : Option (Result String (Unit {0}))} → Applied s s []
  first : (answer : Result String (Unit {0})) → Applied none (some answer) (applied_sandbox ∷ [])

module _ {J : Type 0} where
  abbrev pub is_success : Option (ToolResult J) → Bool
  is_success none = false
  is_success (some result) = result.success

  -- What the log gets of a call.
  abbrev pub entry_of : World J → String → ToolContext → LogEntry
  entry_of w name ctx = record {
    timestamp_ms = w.logged_at;
    agent_id = ctx.agent_id;
    tool_name = name;
    success = is_success (task_result w.ending);
    duration_ms = w.elapsed_ms;
  }

  -- What the log gets, by the effects of the call.
  abbrev pub logged : World J → String → ToolContext → List (Effect J) → List LogEntry
  logged w name ctx effects = if any effects is_start then entry_of w name ctx ∷ [] else []

module _ {T S J : Type 0} where
  -- The registry after a call that ran: two numbers were taken, and an entry written.
  abbrev pub after_call :
      World J
      → String
      → ToolContext
      → Option (Result String (Unit {0}))
      → ToolRegistry T S
      → ToolRegistry T S
  after_call w name ctx sandbox r =
      let next = (r.audit_counter + 1) % u64 in
      record r {
        sandbox_state = sandbox;
        audit_counter = (next + 1) % u64;
        audit_log = evict r.max_audit_entries (insert_key next (entry_of w name ctx) r.audit_log);
      }

  abbrev pub announcements :
      World J → String → J → ToolContext → ℕ → ToolRegistry T S → List (Effect J)
  announcements w name args ctx timeout_ms r =
      when r.has_publisher (published_called ctx.agent_id name r.audit_counter)
      ++ when r.has_audit_writer (audited (audit_call w.called_at ctx.agent_id name (some args)))
      ++ started_tool name args ctx timeout_ms ∷ []

  abbrev pub conclusions :
      World J → String → ToolContext → Option String → ToolRegistry T S → List (Effect J)
  conclusions w name ctx code r =
      let success = is_success (task_result w.ending) in
      when r.has_publisher (published_result ctx.agent_id name r.audit_counter success)
      ++ when r.has_audit_writer
          (audited (audit_result w.audited_at ctx.agent_id name success w.elapsed_ms code))

  -- One call, with the registry after it, its effects, and what it writes to the log.
  pub data Called (w : World J) (name : String) (args : J) (ctx : ToolContext)
      (r : ToolRegistry T S) : ToolRegistry T S → List (Effect J) → List LogEntry → Type 0 where
    refused :
        (sandbox : Option (Result String (Unit {0}))) (before : List (Effect J))
        → Applied r.sandbox_state sandbox before
        → Called w name args ctx r (record r { sandbox_state = sandbox }) before []
    ran :
        (sandbox : Option (Result String (Unit {0}))) (before : List (Effect J)) (timeout_ms : ℕ)
        (code : Option String)
        → Applied r.sandbox_state sandbox before
        → Called w name args ctx r
            (after_call w name ctx sandbox r)
            (before
              ++ (announcements w name args ctx timeout_ms r ++ conclusions w name ctx code r))
            (entry_of w name ctx ∷ [])
