-- ===== src/Tools/Registry/Execution/Steps.antt =====
-- That `execute` is such a step.
use claw_kernel.Prelude.{
  ℕ, ◌+◌, ◌%◌, ◌≡◌, refl, sym, ap, subst, ◌∙◌, Bool, true, false, ◌||◌, Option, none, some, List,
  [], ◌∷◌, ◌++◌, String, if◌then◌else◌, Result, ok, err,
}
use mathlib.Core.List.{append-nil}
use claw_kernel.Prelude.KeyedMap.{KeyedMap}
use claw_kernel.Prelude.Membership.{any, any-append}
use claw_kernel.Retry.{u64}
use claw_kernel.Tools.Types.{
  ToolResult, Tool, LoadedToolMeta, RegistryExecutionMode, safe, power, ToolContext, RegistryError,
}
use claw_kernel.Tools.Permissions.{Glob}
use claw_kernel.Tools.Registry.{
  audit_call, audit_result, Effect, published_called, published_result, audited, applied_sandbox,
  started_tool, World, ToolRegistry, when, task_result, insert_log, tool_timeout, effective_mode,
  error_code,
}
use claw_kernel.Tools.Registry.Execution.{
  get_or_init, apply_safe_mode, apply_sandbox, run_tool, finish, conclude, permission_result,
  checked_run, execute_in, execute_found, execute,
}
use claw_kernel.Tools.Registry.Execution.Safety.{is_start, starts_between, or_true}
use claw_kernel.Tools.Registry.Execution.Outcomes.{
  Applied, unchanged, first, is_success, entry_of, logged, announcements, conclusions, Called,
  refused, ran,
}

module _ {T S J : Type 0} (tool_ops : KeyedMap T (Tool J)) (script_ops : KeyedMap S LoadedToolMeta)
    (glob : Glob) where
  Applied-starts :
      {s s' : Option (Result String (Unit {0}))} {es : List (Effect J)}
      → Applied s s' es
      → any es is_start ≡ false
  Applied-starts unchanged = refl
  Applied-starts (first answer) = refl

  refused_in :
      (w : World J) (name : String) (args : J) (ctx : ToolContext) (r : ToolRegistry T S)
      (sandbox : Option (Result String (Unit {0}))) (before : List (Effect J))
      → Applied r.sandbox_state sandbox before
      → Called w name args ctx r
          (record r { sandbox_state = sandbox })
          (before ++ [])
          (logged w name ctx (before ++ []))
  refused_in w name args ctx r sandbox before a =
      rw (append-nil before) (rw (Applied-starts a) (refused sandbox before a))

  abbrev code_of : Option (ToolResult J) → Option String
  code_of none = some "timeout"
  code_of (some result) = error_code result.error

  finish-effects :
      (o : Option (ToolResult J)) (w : World J) (agent_id name : String) (id : ℕ)
      (r : ToolRegistry T S)
      → (finish tool_ops script_ops glob w agent_id name id o r).effects
        ≡ when r.has_publisher (published_result agent_id name id (is_success o))
          ++ when r.has_audit_writer (
              audited
                (audit_result w.audited_at agent_id name (is_success o) w.elapsed_ms (code_of o)))
  unfolding finish conclude
  finish-effects none w agent_id name id r = refl
  finish-effects (some result) w agent_id name id r = refl

  finish-registry :
      (o : Option (ToolResult J)) (w : World J) (agent_id name : String) (id : ℕ)
      (r : ToolRegistry T S)
      → (finish tool_ops script_ops glob w agent_id name id o r).registry
        ≡ insert_log tool_ops script_ops
            (record {
              timestamp_ms = w.logged_at;
              agent_id = agent_id;
              tool_name = name;
              success = is_success o;
              duration_ms = w.elapsed_ms;
            })
            r
  unfolding finish conclude
  finish-registry none w agent_id name id r = refl
  finish-registry (some result) w agent_id name id r = refl

  ran-logged :
      (w : World J) (name : String) (args : J) (ctx : ToolContext) (timeout_ms : ℕ)
      (r : ToolRegistry T S) (before after : List (Effect J))
      → logged w name ctx (before ++ (announcements w name args ctx timeout_ms r ++ after))
        ≡ entry_of w name ctx ∷ []
  ran-logged w name args ctx timeout_ms r before after =
      ap (λ b. if b then entry_of w name ctx ∷ [] else [])
        (any-append before _ is_start
          ∙ ap (λ b. any before is_start || b)
              (starts_between tool_ops script_ops glob
                (when r.has_publisher (published_called ctx.agent_id name r.audit_counter))
                (when r.has_audit_writer
                  (audited (audit_call w.called_at ctx.agent_id name (some args))))
                after (started_tool name args ctx timeout_ms) refl)
          ∙ or_true (any before is_start))

  ran_in :
      (w : World J) (name : String) (args : J) (ctx : ToolContext) (tool : Tool J)
      (r : ToolRegistry T S) (sandbox : Option (Result String (Unit {0})))
      (before : List (Effect J))
      → Applied r.sandbox_state sandbox before
      → let done =
          run_tool tool_ops script_ops glob w name args ctx tool
            (record r { sandbox_state = sandbox }) in
        let effects = before ++ done.effects in
        Called w name args ctx r done.registry effects (logged w name ctx effects)
  unfolding run_tool insert_log
  ran_in w name args ctx tool r sandbox before a =
      let ms = tool_timeout tool.timeout_ms in
      let o = task_result w.ending in
      let taken = record r {
        sandbox_state = sandbox;
        audit_counter = (r.audit_counter + 1) % u64;
      } in
      let announced = announcements w name args ctx ms r in
      let concluded = conclusions w name ctx (code_of o) r in
      subst
        (λ es.
          Called w name args ctx r
            (finish tool_ops script_ops glob w ctx.agent_id name r.audit_counter o taken).registry
            (before ++ (announced ++ es)) (logged w name ctx (before ++ (announced ++ es))))
        (sym (finish-effects o w ctx.agent_id name r.audit_counter taken))
        (subst
          (λ d.
            Called w name args ctx r d (before ++ (announced ++ concluded))
              (logged w name ctx (before ++ (announced ++ concluded))))
          (sym (finish-registry o w ctx.agent_id name r.audit_counter taken))
          (rw (ran-logged w name args ctx ms r before concluded)
            (ran sandbox before ms (code_of o) a)))

  checked_run-Called :
      (w : World J) (name : String) (args : J) (ctx : ToolContext) (tool : Tool J)
      (r : ToolRegistry T S) (sandbox : Option (Result String (Unit {0})))
      (before : List (Effect J))
      → Applied r.sandbox_state sandbox before
      → (u : Result String (Unit {0})) (p : Result RegistryError (Unit {0}))
      → let done =
          checked_run tool_ops script_ops glob w name args ctx tool u p
            (record r { sandbox_state = sandbox }) in
        let effects = before ++ done.effects in
        Called w name args ctx r done.registry effects (logged w name ctx effects)
  unfolding checked_run
  checked_run-Called w name args ctx tool r sandbox before a (err e) p =
      refused_in w name args ctx r sandbox before a
  checked_run-Called w name args ctx tool r sandbox before a (ok u) (err e) =
      refused_in w name args ctx r sandbox before a
  checked_run-Called w name args ctx tool r sandbox before a (ok u) (ok v) =
      ran_in w name args ctx tool r sandbox before a

  -- What applying the sandbox may change.
  abbrev SandboxStep : ToolRegistry T S → ToolRegistry T S → List (Effect J) → Type 0
  SandboxStep r r' es =
      (s : Option (Result String (Unit {0}))) × (r' ≡ record r { sandbox_state = s })
      × Applied r.sandbox_state s es

  get_or_init-step :
      (stored : Option (Result String (Unit {0}))) (w : World J) (r : ToolRegistry T S)
      → r.sandbox_state ≡ stored
      → let done = get_or_init tool_ops script_ops glob stored w r in
        SandboxStep r done.registry done.effects
  unfolding get_or_init
  get_or_init-step none w r e = (
    some w.sandbox,
    refl,
    subst (λ s. Applied {J = J} s (some w.sandbox) (applied_sandbox ∷ [])) (sym e)
        (first w.sandbox),
  )
  get_or_init-step (some s) w r e = (r.sandbox_state, refl, unchanged)

  apply_safe_mode-step :
      (applier : Bool) (w : World J) (r : ToolRegistry T S)
      → let done = apply_safe_mode tool_ops script_ops glob applier w r in
        SandboxStep r done.registry done.effects
  unfolding apply_safe_mode
  apply_safe_mode-step true w r = get_or_init-step r.sandbox_state w r refl
  apply_safe_mode-step false w r = (r.sandbox_state, refl, unchanged)

  apply_sandbox-step :
      (mode : RegistryExecutionMode) (w : World J) (r : ToolRegistry T S)
      → let done = apply_sandbox tool_ops script_ops glob mode w r in
        SandboxStep r done.registry done.effects
  unfolding apply_sandbox
  apply_sandbox-step power w r = (r.sandbox_state, refl, unchanged)
  apply_sandbox-step safe w r = apply_safe_mode-step r.has_sandbox_applier w r

  execute_in-Called :
      (mode : RegistryExecutionMode) (w : World J) (name : String) (args : J) (ctx : ToolContext)
      (tool : Tool J) (r : ToolRegistry T S)
      → let done = execute_in tool_ops script_ops glob mode w name args ctx tool r in
        Called w name args ctx r done.registry done.effects (logged w name ctx done.effects)
  unfolding execute_in
  execute_in-Called mode w name args ctx tool r =
      let sandboxed = apply_sandbox tool_ops script_ops glob mode w r in
      let (s, same, a) = apply_sandbox-step mode w r in
      let permitted = permission_result tool_ops script_ops glob mode name tool ctx in
      subst
        (λ r'.
          let done =
            checked_run tool_ops script_ops glob w name args ctx tool sandboxed.returned permitted
              r' in
          let effects = sandboxed.effects ++ done.effects in
          Called w name args ctx r done.registry effects (logged w name ctx effects))
        (sym same)
        (checked_run-Called w name args ctx tool r s sandboxed.effects a sandboxed.returned
          permitted)

  execute_found-Called :
      (found : Option (Tool J)) (w : World J) (name : String) (args : J) (ctx : ToolContext)
      (r : ToolRegistry T S)
      → let done = execute_found tool_ops script_ops glob found w name args ctx r in
        Called w name args ctx r done.registry done.effects (logged w name ctx done.effects)
  unfolding execute_found
  execute_found-Called none w name args ctx r = refused r.sandbox_state [] unchanged
  execute_found-Called (some tool) w name args ctx r =
      execute_in-Called (effective_mode r.global_mode ctx.execution_mode) w name args ctx tool r

  pub execute-Called :
      (w : World J) (name : String) (args : J) (ctx : ToolContext) (r : ToolRegistry T S)
      → let done = execute tool_ops script_ops glob w name args ctx r in
        Called w name args ctx r done.registry done.effects (logged w name ctx done.effects)
  unfolding execute
  execute-Called w name args ctx r =
      execute_found-Called (tool_ops.get name r.tools) w name args ctx r
