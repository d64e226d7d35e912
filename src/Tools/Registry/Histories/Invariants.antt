-- ===== src/Tools/Registry/Histories/Invariants.antt =====
-- What holds of the log, the published calls and the sandbox after any operations.
use claw_kernel.Prelude.{
  ℕ, suc, ◌+◌, ◌*◌, ◌%◌, ◌≤◌, ◌<◌, ◌≡◌, refl, ap, ◌∙◌, Bool, true, false, Option, none, some, List,
  [], ◌∷◌, ◌++◌, String, if◌then◌else◌, is_some, length, length-append, Result, arith, inl,
}
use mathlib.Core.List.{append-nil}
use claw_kernel.Prelude.KeyedMap.{KeyedMap}
use claw_kernel.Retry.{u64}
use claw_kernel.Tools.Types.{Tool, LoadedToolMeta, LogEntry, ToolContext}
use claw_kernel.Tools.Permissions.{Glob}
use claw_kernel.Tools.AuditLog.Newest.{KeepsNewest, insert-KeepsNewest}
use claw_kernel.Tools.Registry.{
  audit_call, audit_result, Effect, World, ToolRegistry, new, with_max_audit_entries,
  with_event_publisher, with_audit_writer, with_sandbox_applier, task_result,
}
use claw_kernel.Tools.Registry.Execution.Outcomes.{
  Applied, Called, refused, ran, after_call, announcements, conclusions, entry_of, is_success,
}
use claw_kernel.Tools.Registry.Histories.{Op, configured, step, Reach, started, next}
use claw_kernel.Tools.Registry.Histories.Moves.{Moves, kept, called, step-Moves}
use claw_kernel.Tools.Registry.Histories.Measures.{
  collect, called_id, result_id, application, call_ids, result_ids, applications, collect-append,
  quiet_effect, collect-quiet, ran-measures, Applied-measures, Rising, Rising-if,
}

module _ {T S J : Type 0} where
  -- The numbers of the log and of the calls, with a counter that did not wrap.
  record Numbered (m : ℕ) (r : ToolRegistry T S) (es : List (Effect J)) (written : List LogEntry)
      : Type 0 where
    bound : r.max_audit_entries ≡ m
    keeps : KeepsNewest m written r.audit_counter r.audit_log
    answered : call_ids es ≡ result_ids es
    rising : Rising 1 r.audit_counter (call_ids es)

  same-Numbered :
      {m : ℕ} {r r' : ToolRegistry T S} {es : List (Effect J)} {written : List LogEntry}
      (es' : List (Effect J))
      → r'.audit_log ≡ r.audit_log
      → r'.audit_counter ≡ r.audit_counter
      → r'.max_audit_entries ≡ r.max_audit_entries
      → call_ids es' ≡ []
      → result_ids es' ≡ []
      → Numbered m r es written
      → Numbered m r' (es ++ es') (written ++ [])
  same-Numbered {es} {written} es' log counter most calls results h = record {
    bound = most ∙ h.bound;
    keeps = rw (append-nil written) (rw log (rw counter h.keeps));
    answered = rw (collect-append called_id es es') (
        rw (collect-append result_id es es')
          (rw calls (rw results (ap (λ l. l ++ []) h.answered))));
    rising =
        rw (collect-append called_id es es')
          (rw calls (rw counter (rw (append-nil (call_ids es)) h.rising)));
  }

  ran-Numbered :
      {m : ℕ} {r : ToolRegistry T S} {es : List (Effect J)} {written : List LogEntry} (w : World J)
      (name : String) (args : J) (ctx : ToolContext) (sandbox : Option (Result String (Unit {0})))
      (before : List (Effect J)) (ms : ℕ) (code : Option String)
      → r.audit_counter + 2 < u64
      → Applied r.sandbox_state sandbox before
      → Numbered m r es written
      → Numbered m
          (after_call w name ctx sandbox r)
          (es ++ (before ++ (announcements w name args ctx ms r ++ conclusions w name ctx code r)))
          (written ++ entry_of w name ctx ∷ [])
  ran-Numbered {m} {r} {es} {written} w name args ctx sandbox before ms code fits a h =
      let (calls, results, none_applied) =
        ran-measures r.has_publisher r.has_audit_writer ctx.agent_id name r.audit_counter
          (is_success (task_result w.ending)) (audit_call w.called_at ctx.agent_id name (some args))
          (audit_result w.audited_at ctx.agent_id name (is_success (task_result w.ending))
            w.elapsed_ms code)
          args ctx ms a in
      record {
        bound = h.bound;
        keeps = rw two_more (
            rw one_more (
              rw h.bound (
                insert-KeepsNewest m r.audit_counter (r.audit_counter + 1) _ written r.audit_log
                  (omega arith) h.keeps)));
        answered = rw (collect-append called_id es _) (
            rw (collect-append result_id es _) (
              rw calls (
                rw results (
                  ap (λ l. l ++ (if r.has_publisher then r.audit_counter ∷ [] else []))
                    h.answered))));
        rising = rw (collect-append called_id es _) (
            rw calls (
              rw two_more (
                Rising-if r.has_publisher 1 r.audit_counter (suc (r.audit_counter + 1))
                  (call_ids es) (omega arith) h.rising)));
      }
    where
      one_more : (r.audit_counter + 1) % u64 ≡ r.audit_counter + 1
      one_more = ground (arith, fits)

      two_more : ((r.audit_counter + 1) % u64 + 1) % u64 ≡ suc (r.audit_counter + 1)
      two_more = ground (arith, fits)

  Called-Numbered :
      {m : ℕ} (w : World J) (name : String) (args : J) (ctx : ToolContext) {r r' : ToolRegistry T S}
      {es es' : List (Effect J)} {written more : List LogEntry}
      → r.audit_counter + 2 < u64
      → Called w name args ctx r r' es' more
      → Numbered m r es written
      → Numbered m r' (es ++ es') (written ++ more)
  Called-Numbered w name args ctx fits (refused sandbox before a) h =
      let (calls, results, n) = Applied-measures a in
      same-Numbered before refl refl refl calls results h
  Called-Numbered w name args ctx fits (ran sandbox before ms code a) h =
      ran-Numbered w name args ctx sandbox before ms code fits a h

  Called-counter :
      (w : World J) (name : String) (args : J) (ctx : ToolContext) {r r' : ToolRegistry T S}
      {es' : List (Effect J)} {more : List LogEntry}
      → Called w name args ctx r r' es' more
      → r'.audit_counter ≤ r.audit_counter + 2
  Called-counter w name args ctx (refused sandbox before a) = omega arith
  Called-counter w name args ctx {r} (ran sandbox before ms code a) = ground arith

  Moves-counter :
      {r r' : ToolRegistry T S} {es' : List (Effect J)} {more : List LogEntry}
      → Moves r r' es' more
      → r'.audit_counter ≤ r.audit_counter + 2
  Moves-counter (kept k) = omega (arith, k.audit_counter)
  Moves-counter (called w name args ctx c) = Called-counter w name args ctx c

  Moves-Numbered :
      {m : ℕ} {r r' : ToolRegistry T S} {es es' : List (Effect J)} {written more : List LogEntry}
      → r.audit_counter + 2 < u64
      → Moves r r' es' more
      → Numbered m r es written
      → Numbered m r' (es ++ es') (written ++ more)
  Moves-Numbered {es'} fits (kept k) h =
      same-Numbered es' k.audit_log k.audit_counter k.max_audit_entries
        (collect-quiet called_id (λ e q. (quiet_effect e q).0) es' k.quiet)
        (collect-quiet result_id (λ e q. (quiet_effect e q).1) es' k.quiet) h
  Moves-Numbered fits (called w name args ctx c) h = Called-Numbered w name args ctx fits c h

  Called-applications :
      (w : World J) (name : String) (args : J) (ctx : ToolContext) {r r' : ToolRegistry T S}
      {es' : List (Effect J)} {more : List LogEntry}
      → Called w name args ctx r r' es' more
      → (if is_some r.sandbox_state then 1 else 0) + applications es'
        ≡ (if is_some r'.sandbox_state then 1 else 0)
  Called-applications w name args ctx (refused sandbox before a) = (Applied-measures a).2
  Called-applications w name args ctx {r} (ran sandbox before ms code a) =
      let (calls, results, same) =
        ran-measures r.has_publisher r.has_audit_writer ctx.agent_id name r.audit_counter
          (is_success (task_result w.ending)) (audit_call w.called_at ctx.agent_id name (some args))
          (audit_result w.audited_at ctx.agent_id name (is_success (task_result w.ending))
            w.elapsed_ms code)
          args ctx ms a in
      rw same (Applied-measures a).2

  Moves-applications :
      {r r' : ToolRegistry T S} {es' : List (Effect J)} {more : List LogEntry}
      → Moves r r' es' more
      → (if is_some r.sandbox_state then 1 else 0) + applications es'
        ≡ (if is_some r'.sandbox_state then 1 else 0)
  Moves-applications {r} {r'} {es'} (kept k) =
      rw k.sandbox_state
        (rw (collect-quiet application (λ e q. (quiet_effect e q).2) es' k.quiet) (omega arith))
  Moves-applications (called w name args ctx c) = Called-applications w name args ctx c

module _ {T S J : Type 0} (tool_ops : KeyedMap T (Tool J)) (script_ops : KeyedMap S LoadedToolMeta)
    (glob : Glob) (object_schema : J) where
  configured-fields :
      (p w a : Bool) (n : ℕ)
      → let r = configured tool_ops script_ops glob object_schema p w a n in
        (r.max_audit_entries ≡ n)
        × (r.audit_log ≡ [])
        × (r.audit_counter ≡ 1)
        × (r.sandbox_state ≡ none)
  unfolding configured new with_max_audit_entries with_event_publisher with_audit_writer
      with_sandbox_applier
  configured-fields true true true n = (refl, refl, refl, refl)
  configured-fields true true false n = (refl, refl, refl, refl)
  configured-fields true false true n = (refl, refl, refl, refl)
  configured-fields true false false n = (refl, refl, refl, refl)
  configured-fields false true true n = (refl, refl, refl, refl)
  configured-fields false true false n = (refl, refl, refl, refl)
  configured-fields false false true n = (refl, refl, refl, refl)
  configured-fields false false false n = (refl, refl, refl, refl)

  Reach-Numbered :
      {m : ℕ} {ops : List (Op J)} {r : ToolRegistry T S} {es : List (Effect J)}
      {written : List LogEntry}
      → 2 * length ops + 1 < u64
      → Reach tool_ops script_ops glob object_schema m ops r es written
      → Numbered m r es written × (r.audit_counter ≤ 2 * length ops + 1)
  Reach-Numbered {m} few (started p w a) =
      let (most, log, counter, sandbox) = configured-fields p w a m in
      (
        record {
          bound = most;
          keeps = rw log (
              rw counter (record {
                older = [];
                split = refl;
                numbers = omega arith;
                within = omega arith;
                recent = inl refl;
              }));
          answered = refl;
          rising = omega (arith, counter);
        },
        omega (arith, counter),
      )
  Reach-Numbered few (next {r} op reach) =
      let (h, le) = Reach-Numbered (omega (arith, few)) reach in
      let moves = step-Moves tool_ops script_ops glob object_schema op r in
      (Moves-Numbered (omega (arith, few, le)) moves h, omega (arith, le, Moves-counter moves))

  -- After operations fewer than 2 ^ 63 on a new registry, the audit log in memory is the end of all
  -- the entries written, one for each call that started a tool, its numbers rise, it is within its
  -- bound, and when an entry is gone it holds at least the bound less a tenth.
  pub log-KeepsNewest :
      {m : ℕ} {ops : List (Op J)} {r : ToolRegistry T S} {es : List (Effect J)}
      {written : List LogEntry}
      → 2 * length ops + 1 < u64
      → Reach tool_ops script_ops glob object_schema m ops r es written
      → KeepsNewest m written r.audit_counter r.audit_log
  log-KeepsNewest few reach = (Reach-Numbered few reach).0.keeps

  -- After operations fewer than 2 ^ 63 on a new registry, the calls announced to the publisher and
  -- the results published are those of the same calls in the same order, and their numbers rise.
  pub calls_answered :
      {m : ℕ} {ops : List (Op J)} {r : ToolRegistry T S} {es : List (Effect J)}
      {written : List LogEntry}
      → 2 * length ops + 1 < u64
      → Reach tool_ops script_ops glob object_schema m ops r es written
      → (call_ids es ≡ result_ids es) × Rising 1 r.audit_counter (call_ids es)
  calls_answered few reach = let h = (Reach-Numbered few reach).0 in (h.answered, h.rising)

  -- Over any operations on a new registry the sandbox is applied once at most, namely when its
  -- answer is stored.
  pub sandbox_once :
      {m : ℕ} {ops : List (Op J)} {r : ToolRegistry T S} {es : List (Effect J)}
      {written : List LogEntry}
      → Reach tool_ops script_ops glob object_schema m ops r es written
      → applications es ≡ (if is_some r.sandbox_state then 1 else 0)
  sandbox_once {m} (started p w a) = rw (configured-fields p w a m).3 refl
  sandbox_once (next {r} {es} op reach) =
      let moves = step-Moves tool_ops script_ops glob object_schema op r in
      let es' = (step tool_ops script_ops glob object_schema op r).1 in
      ap length (collect-append application es es')
      ∙ length-append (collect application es) (collect application es')
      ∙ ap (λ n. n + applications es') (sandbox_once reach)
      ∙ Moves-applications moves
