-- ===== src/Tools/Registry/Histories/Modes.antt =====
-- When a registry is in power mode.
use claw_kernel.Prelude.{
  ℕ, ◌≡◌, refl, sym, ap, ◌∙◌, Bool, true, false, List, [], ◌∷◌, String, if◌then◌else◌, is_some, ◌↔◌,
  arith, Bool-cases, inl, inr,
}
use claw_kernel.Prelude.KeyedMap.{KeyedMap}
use claw_kernel.Tools.Types.{
  Tool, LoadedToolMeta, LogEntry, ToolContext, RegistryExecutionMode, safe, power,
}
use claw_kernel.Tools.Permissions.{Glob}
use claw_kernel.Tools.Registry.{
  Effect, World, ToolRegistry, Ran, new, with_max_audit_entries, with_event_publisher,
  with_audit_writer, with_sandbox_applier, register, unregister, update, enter_power_mode,
  drop_guard, unload,
}
use claw_kernel.Tools.Registry.Execution.Outcomes.{Called, refused, ran}
use claw_kernel.Tools.Registry.Execution.Steps.{execute-Called}
use claw_kernel.Tools.Registry.Scripts.{load_from_script-ChangesScripts}
use claw_kernel.Tools.Registry.Histories.{
  Op, registers, unregisters, updates, enters, drops, unloads, loads, executes, configured, step,
  Reach, started, next,
}

module _ {J : Type 0} where
  abbrev pub is_drop : Op J → Bool
  is_drop drops = true
  is_drop op = false

  abbrev pub has_key : Op J → Bool
  has_key (enters verified now) = verified
  has_key op = false

  -- Among operations, the newest first: a verified key, and no guard dropped since.
  pub data Unlocked : List (Op J) → Type 0 where
    by_key : {op : Op J} {ops : List (Op J)} → has_key op ≡ true → Unlocked (op ∷ ops)
    still :
        {op : Op J} {ops : List (Op J)} → is_drop op ≡ false → Unlocked ops → Unlocked (op ∷ ops)

  -- The mode after an operation, by the mode before it.
  abbrev mode_after : Op J → RegistryExecutionMode → RegistryExecutionMode
  mode_after op mode = if has_key op then power else if is_drop op then safe else mode

  Unlocked-not-nil : {A : Type 0} → Unlocked [] → A
  Unlocked-not-nil u = elim u [ ]

  locked_by_drop :
      (op : Op J) (ops : List (Op J))
      → is_drop op ≡ true
      → has_key op ≡ false
      → Unlocked (op ∷ ops)
      → true ≡ false
  locked_by_drop op ops d k (by_key h) = sym h ∙ k
  locked_by_drop op ops d k (still h u) = sym d ∙ h

  op_before :
      (op : Op J) (ops : List (Op J)) → has_key op ≡ false → Unlocked (op ∷ ops) → Unlocked ops
  op_before op ops k (by_key h) = absurd (ground (arith, h, k))
  op_before op ops k (still h u) = u

  Unlocked-after :
      (op : Op J) (ops : List (Op J)) (mode : RegistryExecutionMode)
      → ((mode ≡ power) ↔ Unlocked ops)
      → (mode_after op mode ≡ power) ↔ Unlocked (op ∷ ops)
  Unlocked-after op ops mode ih = elim (Bool-cases (has_key op)) [
    | inl k ↦ rw k (λ h. by_key k, λ h. refl)
    | inr k ↦ elim (Bool-cases (is_drop op)) [
      | inl d ↦ rw k (
          rw d
            (λ h. absurd (ground arith), λ u. absurd (ground (arith, locked_by_drop op ops d k u))))
      | inr d ↦ rw k (rw d (λ h. still d (ih.0 h), λ u. ih.1 (op_before op ops k u)))
    ]
  ]

module _ {T S J : Type 0} (tool_ops : KeyedMap T (Tool J)) (script_ops : KeyedMap S LoadedToolMeta)
    (glob : Glob) (object_schema : J) where
  mode_if :
      {A : Type 0} (b : Bool) (mode : RegistryExecutionMode) (x y : Ran (ToolRegistry T S) J A)
      → x.registry.global_mode ≡ mode
      → y.registry.global_mode ≡ mode
      → (if b then x else y).registry.global_mode ≡ mode
  mode_if true mode x y hx hy = hx
  mode_if false mode x y hx hy = hy

  Called-mode :
      {w : World J} {name : String} {args : J} {ctx : ToolContext} {r r' : ToolRegistry T S}
      {es : List (Effect J)} {written : List LogEntry}
      → Called w name args ctx r r' es written
      → r'.global_mode ≡ r.global_mode
  Called-mode (refused sandbox before a) = refl
  Called-mode (ran sandbox before ms code a) = refl

  step-mode :
      (op : Op J) (r : ToolRegistry T S)
      → (step tool_ops script_ops glob object_schema op r).0.global_mode
        ≡ mode_after op r.global_mode
  unfolding step register unregister update enter_power_mode drop_guard unload
  step-mode (registers tool) r =
      mode_if (is_some (tool_ops.get tool.name r.tools)) r.global_mode _ _ refl refl
  step-mode (unregisters name) r =
      mode_if (is_some (tool_ops.get name r.tools)) r.global_mode _ _ refl refl
  step-mode (updates name tool) r = refl
  step-mode (enters true now) r = refl
  step-mode (enters false now) r = refl
  step-mode drops r = refl
  step-mode (unloads name) r =
      mode_if (is_some (tool_ops.get name r.tools)) r.global_mode _ _ refl refl
  step-mode (loads f) r =
      ap (λ x. x.global_mode)
        (load_from_script-ChangesScripts tool_ops script_ops object_schema f r)
  step-mode (executes w name args ctx) r =
      Called-mode (execute-Called tool_ops script_ops glob w name args ctx r)

  configured-mode :
      (p w a : Bool) (n : ℕ)
      → (configured tool_ops script_ops glob object_schema p w a n).global_mode ≡ safe
  unfolding configured new with_max_audit_entries with_event_publisher with_audit_writer
      with_sandbox_applier
  configured-mode true true true n = refl
  configured-mode true true false n = refl
  configured-mode true false true n = refl
  configured-mode true false false n = refl
  configured-mode false true true n = refl
  configured-mode false true false n = refl
  configured-mode false false true n = refl
  configured-mode false false false n = refl

  -- After any operations on a new registry, it is in power mode exactly when a key was verified and
  -- no guard was dropped since.
  pub power_mode-Unlocked :
      {m : ℕ} {ops : List (Op J)} {r : ToolRegistry T S} {es : List (Effect J)}
      {written : List LogEntry}
      → Reach tool_ops script_ops glob object_schema m ops r es written
      → (r.global_mode ≡ power) ↔ Unlocked ops
  power_mode-Unlocked (started p w a) =
      rw (configured-mode p w a _) (λ h. absurd (ground arith), λ u. Unlocked-not-nil u)
  power_mode-Unlocked (next {ops} {r} op reach) =
      rw (step-mode op r) (Unlocked-after op ops r.global_mode (power_mode-Unlocked reach))
