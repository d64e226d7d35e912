-- ===== src/Tools/Registry/Histories/Measures.antt =====
-- What the effects of operations tell of calls and of the sandbox.
use claw_kernel.Prelude.{
  ℕ, suc, ◌+◌, ◌≤◌, ◌≡◌, refl, sym, ap, ◌∙◌, Bool, true, false, ◌&&◌, Option, List, [], ◌∷◌, ◌++◌,
  String, if◌then◌else◌, is_some, length, Result, arith,
}
use mathlib.Core.List.{append-nil, append_assoc}
use claw_kernel.Prelude.Membership.{all}
use claw_kernel.Tools.Types.{ToolContext}
use claw_kernel.Tools.Registry.{
  AuditEvent, Effect, published_called, published_result, audited, applied_sandbox, started_tool,
  published_registered, published_unregistered, when,
}
use claw_kernel.Tools.Registry.Execution.Outcomes.{Applied, unchanged, first}
use claw_kernel.Tools.Registry.Histories.Moves.{is_quiet}

and_true : (a b : Bool) → (a && b) ≡ true → (a ≡ true) × (b ≡ true)
and_true true b h = (refl, h)
and_true false b h = absurd (ground arith)

module _ {J : Type 0} where
  abbrev pub collect : (Effect J → List ℕ) → List (Effect J) → List ℕ
  collect f [] = []
  collect f (e ∷ es) = f e ++ collect f es

  abbrev pub called_id : Effect J → List ℕ
  called_id (published_called agent_id name call_id) = call_id ∷ []
  called_id e = []

  abbrev pub result_id : Effect J → List ℕ
  result_id (published_result agent_id name call_id success) = call_id ∷ []
  result_id e = []

  abbrev pub application : Effect J → List ℕ
  application applied_sandbox = 0 ∷ []
  application e = []

  -- The numbers of the calls that the effects announce.
  abbrev pub call_ids : List (Effect J) → List ℕ
  call_ids es = collect called_id es

  -- The numbers of the calls whose results the effects tell.
  abbrev pub result_ids : List (Effect J) → List ℕ
  result_ids es = collect result_id es

  -- How often the sandbox was applied.
  abbrev pub applications : List (Effect J) → ℕ
  applications es = length (collect application es)

  pub collect-append :
      (f : Effect J → List ℕ) (xs ys : List (Effect J))
      → collect f (xs ++ ys) ≡ collect f xs ++ collect f ys
  collect-append f [] ys = refl
  collect-append f (e ∷ xs) ys =
      ap (◌++◌ (f e)) (collect-append f xs ys)
      ∙ sym (append_assoc (f e) (collect f xs) (collect f ys))

  pub quiet_effect :
      (e : Effect J)
      → is_quiet e ≡ true
      → (called_id e ≡ []) × (result_id e ≡ []) × (application e ≡ [])
  quiet_effect (published_called agent_id name call_id) h = absurd (ground arith)
  quiet_effect (published_registered name source) h = (refl, refl, refl)
  quiet_effect (published_unregistered name) h = (refl, refl, refl)
  quiet_effect (published_result agent_id name call_id success) h = absurd (ground arith)
  quiet_effect (audited event) h = (refl, refl, refl)
  quiet_effect applied_sandbox h = absurd (ground arith)
  quiet_effect (started_tool name args ctx ms) h = absurd (ground arith)

  pub collect-quiet :
      (f : Effect J → List ℕ)
      → ((e : Effect J) → is_quiet e ≡ true → f e ≡ [])
      → (es : List (Effect J)) → all es is_quiet ≡ true
      → collect f es ≡ []
  collect-quiet f h [] q = refl
  collect-quiet f h (e ∷ es) q =
      let (qe, qs) = and_true (is_quiet e) (all es is_quiet) q in
      rw (h e qe) (collect-quiet f h es qs)

  -- The three measures of the effects of a call that ran, with the sandbox before it.
  pub ran-measures :
      {s s' : Option (Result String (Unit {0}))} {before : List (Effect J)} (p q : Bool)
      (agent name : String) (id : ℕ) (success : Bool) (c d : AuditEvent J) (args : J)
      (ctx : ToolContext) (ms : ℕ)
      → Applied s s' before
      → let es =
          before
          ++ ((when p (published_called agent name id)
                ++ when q (audited c)
                ++ started_tool name args ctx ms ∷ [])
              ++ (when p (published_result agent name id success) ++ when q (audited d))) in
        (call_ids es ≡ (if p then id ∷ [] else []))
        × (result_ids es ≡ (if p then id ∷ [] else []))
        × (applications es ≡ applications before)
  ran-measures true true agent name id success c d args ctx ms unchanged = (refl, refl, refl)
  ran-measures true false agent name id success c d args ctx ms unchanged = (refl, refl, refl)
  ran-measures false true agent name id success c d args ctx ms unchanged = (refl, refl, refl)
  ran-measures false false agent name id success c d args ctx ms unchanged = (refl, refl, refl)
  ran-measures true true agent name id success c d args ctx ms (first x) = (refl, refl, refl)
  ran-measures true false agent name id success c d args ctx ms (first x) = (refl, refl, refl)
  ran-measures false true agent name id success c d args ctx ms (first x) = (refl, refl, refl)
  ran-measures false false agent name id success c d args ctx ms (first x) = (refl, refl, refl)

  pub Applied-measures :
      {s s' : Option (Result String (Unit {0}))} {before : List (Effect J)}
      → Applied s s' before
      → (call_ids before ≡ [])
        × (result_ids before ≡ [])
        × ((if is_some s then 1 else 0) + applications before ≡ (if is_some s' then 1 else 0))
  Applied-measures {s} unchanged = (refl, refl, omega arith)
  Applied-measures (first x) = (refl, refl, refl)

-- The numbers rise from `low` on and stay below `high`.
abbrev pub Rising : ℕ → ℕ → List ℕ → Type 0
Rising low high [] = low ≤ high
Rising low high (k ∷ ks) = (low ≤ k) × Rising (suc k) high ks

Rising-le : (low high : ℕ) (ks : List ℕ) → Rising low high ks → low ≤ high
Rising-le low high [] h = h
Rising-le low high (k ∷ ks) (le, h) = omega (arith, Rising-le (suc k) high ks h, le)

Rising-more :
    (low high high' : ℕ) (ks : List ℕ) → high ≤ high' → Rising low high ks → Rising low high' ks
Rising-more low high high' [] le h = omega arith
Rising-more low high high' (k ∷ ks) le (lk, h) = (lk, Rising-more (suc k) high high' ks le h)

Rising-append :
    (low high high' : ℕ) (ks : List ℕ)
    → suc high ≤ high'
    → Rising low high ks
    → Rising low high' (ks ++ high ∷ [])
Rising-append low high high' [] le h = (h, le)
Rising-append low high high' (k ∷ ks) le (lk, h) = (lk, Rising-append (suc k) high high' ks le h)

pub Rising-if :
    (b : Bool) (low high high' : ℕ) (ks : List ℕ)
    → suc high ≤ high'
    → Rising low high ks
    → Rising low high' (ks ++ (if b then high ∷ [] else []))
Rising-if true low high high' ks le h = Rising-append low high high' ks le h
Rising-if false low high high' ks le h =
    rw (append-nil ks) (Rising-more low high high' ks (omega arith) h)
