-- ===== src/Loop/AgentLoop/Steps.antt =====
-- Where a run of crates/claw-loop/src/agent_loop.rs stands, and the rules for its steps.
use claw_kernel.Prelude.{ℕ, ◌≡◌, refl, ap, List, ◌∷◌, ok, err}
use claw_kernel.Loop.StateMachine.{AgentState, idle, StateEvent, StateMachine}
use claw_kernel.Loop.StateMachine.Graph.{Edge, HasTable, transition_along}
use claw_kernel.Loop.Types.{AgentError}
use claw_kernel.Loop.Agent.{Agent, M, ◌>>=◌, transition, apply_transition}

-- The states broadcast since `base`, newest first, are the ends of a walk from `idle` to the state.
pub data Trace (base : List AgentState) : List AgentState → AgentState → Type 0 where
  begin : Trace base base idle
  walk :
      {bs : List AgentState} {s t : AgentState} {e : StateEvent}
      → Trace base bs s
      → Edge s e t
      → Trace base (t ∷ bs) t

-- The part of an agent that a run's control depends on.
pub record Core : Type 0 where
  pub machine : StateMachine
  pub state : AgentState
  pub broadcasts : List AgentState
  pub turn : ℕ

abbrev pub core : {W : Type 0} → Agent W → Core
core a = record {
  machine = a.machine;
  state = a.state;
  broadcasts = a.broadcasts;
  turn = a.loop_state.turn;
}

-- The machine, the shared state and the subscribers agree on the state.
pub record Stands (base : List AgentState) (s : AgentState) (c : Core) : Type 0 where
  pub table : HasTable c.machine
  pub current : c.machine.current ≡ s
  pub shared : c.state ≡ s
  pub trace : Trace base c.broadcasts s

pub counted :
    {base : List AgentState} {s : AgentState} {c : Core} (n : ℕ)
    → Stands base s c
    → Stands base s (record c { turn = n })
counted n h = record { table = h.table; current = h.current; shared = h.shared; trace = h.trace }

abbrev pub At : {W : Type 0} → List AgentState → AgentState → Agent W → Type 0
At base s a = Stands base s (core a)

abbrev pub moved : {W : Type 0} → AgentState → Agent W → Agent W
moved t a = record a {
  machine = record (a.machine) { current = t };
  state = t;
  broadcasts = t ∷ a.broadcasts;
}

module _ {W : Type 0} where
  pub moved-At :
      {base : List AgentState} {s t : AgentState} {e : StateEvent} (a : Agent W)
      → At base s a
      → Edge s e t
      → At base t (moved t a)
  moved-At a h edge = record {
    table = record {
      same_transitions = h.table.same_transitions;
      same_allowed = h.table.same_allowed;
    };
    current = refl;
    shared = refl;
    trace = walk h.trace edge;
  }

  pub transition_moves :
      {base : List AgentState} {s t : AgentState} {e : StateEvent} (a : Agent W)
      → At base s a
      → Edge s e t
      → transition e a ≡ (ok tt, moved t a)
  unfolding transition apply_transition
  transition_moves {t = t} {e = e} a h edge =
      rw (transition_along a.machine e {t = t} h.table (rw (h.current) edge))

  -- The same before the rest of a method.
  pub moves :
      {base : List AgentState} {s t : AgentState} {e : StateEvent} (a : Agent W)
      → At base s a
      → Edge s e t
      → {B : Type 0} (f : Unit {0} → M W B) → (transition e >>= f) a ≡ f tt (moved t a)
  moves a h edge f =
      ap (λ r. elim r.0 [ ok x ↦ f x r.1 | err e ↦ (err e, r.1) ]) (transition_moves a h edge)

  pub after :
      {A B : Type 0} (m n : M W A) (f : A → M W B) {a a' : Agent W}
      → m a ≡ n a'
      → (m >>= f) a ≡ (n >>= f) a'
  after m n f e = ap (λ r. elim r.0 [ ok x ↦ f x r.1 | err e ↦ (err e, r.1) ]) e

  pub broken :
      {A B : Type 0} (m : M W A) (f : A → M W B) {a a' : Agent W} {e : AgentError}
      → m a ≡ (err e, a')
      → (m >>= f) a ≡ (err e, a')
  broken m f h = ap (λ r. elim r.0 [ ok x ↦ f x r.1 | err e ↦ (err e, r.1) ]) h
