-- ===== src/Channel/DeduplicatingRouter/Refines.antt =====
-- The deduplicating router gives the answers of the specification, whenever it sweeps.
use claw_kernel.Prelude.{
  ℕ, ◌<◌, ◌≡◌, refl, ap, ◌∙◌, Bool, false, Option, none, some, List, [], ◌∷◌, String, arith,
  is_some, Bool-cases, inl, inr, ◌==◌, ◌%◌,
}
use claw_kernel.Prelude.KeyedMap.{KeyedMap}
use claw_kernel.Channel.Dedup.{
  Accepted, live, spec_step, spec_run, InOrder, Agrees, Agrees-later, Agrees-retain, Agrees-insert,
}
use claw_kernel.Channel.Router.{ChannelRouter}
use claw_kernel.Channel.DeduplicatingRouter.{
  DeduplicatingRouter, new, with_ttl, with_gc_interval, count_and_sweep, within_ttl,
  look_up_or_record, is_duplicate,
}

-- The answers of a history of calls; `none` is a panic.
cons_answer : Bool → Option (List Bool) → Option (List Bool)
cons_answer b none = none
cons_answer b (some bs) = some (b ∷ bs)

within-live : (now ttl : ℕ) (o : Option ℕ) → within_ttl now ttl o ≡ is_some (live ttl now o)
within-live now ttl none = refl
within-live now ttl (some t) = ground arith

module _ {R M S : Type 0} (seen_ops : KeyedMap S ℕ) where
  pub run_calls : DeduplicatingRouter R M S → List (String × ℕ) → Option (List Bool)
  run_calls d [] = some []
  run_calls d ((id, now) ∷ calls) = elim (is_duplicate seen_ops id now d) [
    | none ↦ none
    | some (d', duplicate) ↦ cons_answer duplicate (run_calls d' calls)
  ]

  -- The router's parameters, and its agreement with the accepted identifiers.
  record Sim (gc_interval ttl now : ℕ) (d : DeduplicatingRouter R M S) (f : Accepted) : Type 0 where
    same_interval : d.gc_interval ≡ gc_interval
    same_ttl : d.ttl ≡ ttl
    agrees : Agrees seen_ops ttl now d.seen f

  sweep-Sim :
      (gc_interval ttl now : ℕ) (d : DeduplicatingRouter R M S) (f : Accepted)
      → Sim gc_interval ttl now d f
      → Sim gc_interval ttl now (count_and_sweep seen_ops now d) f
  unfolding count_and_sweep
  sweep-Sim gc_interval ttl now d f s = record {
    same_interval = s.same_interval;
    same_ttl = s.same_ttl;
    agrees = elim (Bool-cases (d.call_count % d.gc_interval == 0)) [
      | inl sweeps ↦ rw sweeps (rw s.same_ttl (Agrees-retain seen_ops ttl now d.seen f s.agrees))
      | inr rests ↦ rw rests s.agrees
    ];
  }

  look_up-Sim :
      (gc_interval ttl now : ℕ) (id : String) (d : DeduplicatingRouter R M S) (f : Accepted)
      → Sim gc_interval ttl now d f
      → let (d', duplicate) = look_up_or_record seen_ops id now d in
        let (f', expected) = spec_step ttl f id now in
        (duplicate ≡ expected) × Sim gc_interval ttl now d' f'
  unfolding look_up_or_record spec_step
  look_up-Sim gc_interval ttl now id d f s = elim (Bool-cases (is_some (live ttl now (f id)))) [
    | inl seen ↦ rw (test ∙ seen) (rw seen (refl, s))
    | inr fresh ↦ rw (test ∙ fresh) (
        rw fresh (
          refl,
          record {
            same_interval = s.same_interval;
            same_ttl = s.same_ttl;
            agrees = Agrees-insert seen_ops ttl now id d.seen f s.agrees;
          },
        ))
  ]
    where
      test : within_ttl now d.ttl (seen_ops.get id d.seen) ≡ is_some (live ttl now (f id))
      test = rw (s.same_ttl, within-live now ttl, s.agrees id)

  is_duplicate-some :
      (gc_interval : ℕ) (now : ℕ) (id : String) (d : DeduplicatingRouter R M S)
      → 0 < gc_interval
      → d.gc_interval ≡ gc_interval
      → is_duplicate seen_ops id now d
        ≡ some (look_up_or_record seen_ops id now (count_and_sweep seen_ops now d))
  unfolding is_duplicate
  is_duplicate-some gc_interval now id d pos e = rw nonzero
    where
      nonzero : (d.gc_interval == 0) ≡ false
      nonzero = ground arith

  run_calls-Sim :
      (gc_interval ttl start : ℕ) (calls : List (String × ℕ)) (d : DeduplicatingRouter R M S)
      (f : Accepted)
      → 0 < gc_interval
      → InOrder start calls
      → Sim gc_interval ttl start d f
      → run_calls d calls ≡ some (spec_run ttl f calls)
  unfolding run_calls spec_run cons_answer
  run_calls-Sim gc_interval ttl start [] d f pos order s = refl
  run_calls-Sim gc_interval ttl start ((id, now) ∷ calls) d f pos (h, order) s =
      let moved : Sim gc_interval ttl now d f = record {
        same_interval = s.same_interval;
        same_ttl = s.same_ttl;
        agrees = Agrees-later seen_ops ttl start now d.seen f h s.agrees;
      } in
      let (same, after) =
        look_up-Sim gc_interval ttl now id _ f (sweep-Sim gc_interval ttl now d f moved) in
      rw (is_duplicate-some gc_interval now id d pos s.same_interval, run_calls)
        (rw (run_calls-Sim gc_interval ttl now calls _ _ pos order after)
          (ap (λ b. some (b ∷ spec_run ttl (spec_step ttl f id now).0 calls)) same))

-- A new deduplicating router, with any time to live and any positive sweep interval, never panics
-- on a history of calls at times that do not fall, and calls a message a duplicate exactly when the
-- specification does: when the same identifier was let through less than the time to live before.
-- So the sweeps, whenever they happen, change no answer.
pub run_calls-spec_run :
    {R M S : Type 0} (seen_ops : KeyedMap S ℕ) (inner : ChannelRouter R M) (ttl gc_interval : ℕ)
    (calls : List (String × ℕ))
    → 0 < gc_interval
    → InOrder 0 calls
    → run_calls seen_ops
        (with_gc_interval seen_ops gc_interval (with_ttl seen_ops ttl (new seen_ops inner)))
        calls
      ≡ some (spec_run ttl (λ j. none) calls)
unfolding new with_ttl with_gc_interval
run_calls-spec_run seen_ops inner ttl gc_interval calls pos order =
    run_calls-Sim seen_ops gc_interval ttl 0 calls _ (λ j. none) pos order
      (record { same_interval = refl; same_ttl = refl; agrees = λ j. rw (seen_ops.get-empty j) })
