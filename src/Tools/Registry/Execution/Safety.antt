-- ===== src/Tools/Registry/Execution/Safety.antt =====
-- When a call starts the tool.
use claw_kernel.Prelude.{
  ◌≡◌, refl, Bool, true, false, ◌||◌, none, some, List, [], ◌∷◌, ◌++◌, String, Result, ok, err, ◌⊎◌,
  inl, inr, arith,
}
use claw_kernel.Prelude.KeyedMap.{KeyedMap}
use claw_kernel.Prelude.Membership.{any, any-append}
use claw_kernel.Tools.Types.{Tool, LoadedToolMeta, RegistryExecutionMode, safe, power, ToolContext}
use claw_kernel.Tools.Permissions.{Glob}
use claw_kernel.Tools.Permissions.Permitted.{Permitted}
use claw_kernel.Tools.Registry.{
  Effect, published_called, published_result, published_registered, published_unregistered, audited,
  applied_sandbox, started_tool, World, ToolRegistry, effective_mode,
}

abbrev pub is_start : {J : Type 0} → Effect J → Bool
is_start (started_tool name args ctx timeout_ms) = true
is_start (published_registered name source) = false
is_start (published_unregistered name) = false
is_start (published_called agent_id name call_id) = false
is_start (published_result agent_id name call_id success) = false
is_start (audited event) = false
is_start applied_sandbox = false

abbrev is_ok : {E A : Type 0} → Result E A → Bool
is_ok (ok a) = true
is_ok (err e) = false

mode-cases : (m : RegistryExecutionMode) → (m ≡ power) ⊎ (m ≡ safe)
mode-cases power = inl refl
mode-cases safe = inr refl

module _ {T S J : Type 0} where
  -- What the sandbox answered at the first safe call, this one if there was none before.
  abbrev pub sandbox_answer : World J → ToolRegistry T S → Result String (Unit {0})
  sandbox_answer w r = elim r.sandbox_state [ none ↦ w.sandbox | some stored ↦ stored ]

  abbrev pub SandboxHolds : World J → ToolRegistry T S → Type 0
  SandboxHolds w r = (r.has_sandbox_applier ≡ false) ⊎ (sandbox_answer w r ≡ ok tt)

  -- The registry is in power mode, or the sandbox holds and the call has the permissions.
  abbrev pub Admitted : Glob → World J → ToolContext → Tool J → ToolRegistry T S → Type 0
  Admitted glob w ctx tool r =
      (r.global_mode ≡ power) ⊎ (SandboxHolds w r × Permitted glob tool.permissions ctx.permissions)

abbrev verdict : RegistryExecutionMode → Bool → Result String (Unit {0}) → Result String (Unit {0})
verdict power applier answer = ok tt
verdict safe true answer = answer
verdict safe false answer = ok tt

pub or_true : (b : Bool) → (b || true) ≡ true
or_true true = refl
or_true false = refl

module _ {T S J : Type 0} (tool_ops : KeyedMap T (Tool J)) (script_ops : KeyedMap S LoadedToolMeta)
    (glob : Glob) where
  abbrev pub starts : List (Effect J) → Bool
  starts effects = any effects is_start

  pub starts_between :
      (before between after : List (Effect J)) (e : Effect J)
      → is_start e ≡ true
      → starts ((before ++ between ++ e ∷ []) ++ after) ≡ true
  starts_between before between after e h =
      rw (any-append (before ++ between ++ e ∷ []) after is_start) (
        rw (any-append (before ++ between) (e ∷ []) is_start)
          (rw h (ground (arith, or_true (starts (before ++ between))))))

  pub effective_mode-eq :
      (global requested : RegistryExecutionMode) → effective_mode global requested ≡ global
  unfolding effective_mode
  effective_mode-eq power requested = refl
  effective_mode-eq safe requested = refl
