-- ===== src/Retry/Attempts.antt =====
-- How often the retry loop calls the operation, and with what result.
use claw_kernel.Prelude.{
  ℕ, zero, suc, ◌+◌, ◌≤◌, ◌<◌, ◌≡◌, refl, ◌⊎◌, inl, inr, Bool, true, false, Option, none, some,
  List, [], ◌∷◌, arith, Result, ok, err, Bool-cases, Result-cases, ap, ltb, ◌&&◌,
}
use claw_kernel.Retry.{
  RetryConfig, Retried, retry_loop, calculate_delay, with_retry_mapped, expect_error,
}

module _ {W E T : Type 0} (operation : W → Result E T × W) (is_retryable : E → Bool)
    (delay : ℕ → ℕ) where
  -- The world before call number `k`, and the outcome of that call.
  abbrev pub world_before : ℕ → W → W
  world_before zero w = w
  world_before (suc k) w = world_before k (operation w).1

  abbrev pub outcome_of : ℕ → W → Result E T
  outcome_of k w = (operation (world_before k w)).0

  abbrev pub delays : ℕ → ℕ → List ℕ
  delays attempt zero = []
  delays attempt (suc k) = delay attempt ∷ delays (suc attempt) k

  abbrev pub WillRetry : Result E T → Type 0
  WillRetry (ok t) = ⊥
  WillRetry (err e) = is_retryable e ≡ true

  abbrev pub WillStop : Result E T → Type 0
  WillStop (ok t) = Unit {0}
  WillStop (err e) = is_retryable e ≡ false

  -- `k` retries after the first call, whose result is that of the last call: every call before it
  -- met an error worth a retry, and it was the last one allowed or needs no retry.
  pub record RetriedTimes (k : ℕ) (left attempt : ℕ) (w : W) (r : Retried W E T) : Type 0 where
    pub within : k ≤ left
    pub calls_made : r.calls ≡ suc k
    pub last_result : r.result ≡ some (outcome_of k w)
    pub last_world : r.world ≡ world_before (suc k) w
    pub slept : r.sleeps ≡ delays attempt k
    pub retried : (i : ℕ) → i < k → WillRetry (outcome_of i w)
    pub stopped : (k ≡ left) ⊎ WillStop (outcome_of k w)

  -- The loop that ends with its first call, and the loop that goes on after a retry.
  ends_here :
      (left attempt : ℕ) (w : W) (r : Retried W E T)
      → r.calls ≡ 1
      → r.result ≡ some (outcome_of 0 w)
      → r.world ≡ world_before 1 w
      → r.sleeps ≡ []
      → (0 ≡ left) ⊎ WillStop (outcome_of 0 w)
      → (k : ℕ) × RetriedTimes k left attempt w r
  ends_here left attempt w r c res wld sl st = (
    0,
    record {
      within = omega arith;
      calls_made = c;
      last_result = res;
      last_world = wld;
      slept = sl;
      retried = λ i h. elim h [ ];
      stopped = st;
    },
  )

  goes_on :
      (left attempt : ℕ) (w : W) (r r' : Retried W E T)
      → WillRetry (outcome_of 0 w)
      → r ≡ record r' { calls = suc r'.calls; sleeps = delay attempt ∷ r'.sleeps }
      → (k : ℕ) × RetriedTimes k left (suc attempt) (operation w).1 r'
      → (k : ℕ) × RetriedTimes k (suc left) attempt w r
  goes_on left attempt w r r' again e (k, t) = (
    suc k,
    record {
      within = omega (arith, t.within);
      calls_made = rw e (ap suc t.calls_made);
      last_result = rw e t.last_result;
      last_world = rw e t.last_world;
      slept = rw e (ap (◌∷◌ (delay attempt)) t.slept);
      retried = first_and_rest;
      stopped = stops_later t.stopped;
    },
  )
    where
      first_and_rest : (i : ℕ) → i < suc k → WillRetry (outcome_of i w)
      first_and_rest zero h = again
      first_and_rest (suc i) h = t.retried i (omega arith)

      stops_later :
          (k ≡ left) ⊎ WillStop (outcome_of k (operation w).1)
          → (suc k ≡ suc left) ⊎ WillStop (outcome_of (suc k) w)
      stops_later (inl at_end) = inl (ap suc at_end)
      stops_later (inr stop) = inr stop

  -- The last round: the test of the attempt fails.
  last_round :
      (max_retries : ℕ) (exhausted : Option E → Option (Result E T)) (left attempt : ℕ)
      (last_error : Option E) (w : W)
      → attempt + left ≡ max_retries
      → (e : E) → (operation w).0 ≡ err e
      → (ltb attempt max_retries && is_retryable e) ≡ false
      → let r =
          retry_loop operation max_retries delay is_retryable exhausted
            (suc left)
            attempt
            last_error
            w in
        (k : ℕ) × RetriedTimes k left attempt w r
  unfolding retry_loop
  last_round max_retries exhausted left attempt last_error w sum e failed test =
      ends_here left attempt w _ (rw (failed, retry_loop) (rw (test, retry_loop)))
        (rw (failed, retry_loop) (rw (test, retry_loop)))
        (rw (failed, retry_loop) (rw (test, retry_loop)))
        (rw (failed, retry_loop) (rw (test, retry_loop))) (rw failed (ground arith))

  pub retry_loop_lem :
      (max_retries : ℕ) (exhausted : Option E → Option (Result E T)) (left attempt : ℕ)
      (last_error : Option E) (w : W)
      → attempt + left ≡ max_retries
      → (k : ℕ) × RetriedTimes k left attempt w (
          retry_loop operation max_retries delay is_retryable exhausted
            (suc left)
            attempt
            last_error
            w)
  unfolding retry_loop
  retry_loop_lem max_retries exhausted zero attempt last_error w sum =
      elim (Result-cases (operation w).0) [
        | inl (t, done) ↦
            ends_here zero attempt w _ (rw (done, retry_loop)) (rw (done, retry_loop))
              (rw (done, retry_loop)) (rw (done, retry_loop)) (inl refl)
        | inr (e, failed) ↦
            last_round max_retries exhausted zero attempt last_error w sum e failed (ground arith)
      ]
  retry_loop_lem max_retries exhausted (suc left) attempt last_error w sum =
      elim (Result-cases (operation w).0) [
        | inl (t, done) ↦
            ends_here (suc left) attempt w _ (rw (done, retry_loop)) (rw (done, retry_loop))
              (rw (done, retry_loop)) (rw (done, retry_loop)) (inr (rw done tt))
        | inr (e, failed) ↦ elim (Bool-cases (is_retryable e)) [
          | inl again ↦
              goes_on left attempt w _ _ (rw failed again)
                (rw (failed, retry_loop) (rw (test again, retry_loop)))
                (retry_loop_lem max_retries exhausted left (suc attempt) (some e) (operation w).1
                  (omega arith))
          | inr never ↦
              last_round max_retries exhausted (suc left) attempt last_error w sum e failed
                (ground arith)
        ]
      ]
    where
      test : {e : E} → is_retryable e ≡ true → (ltb attempt max_retries && is_retryable e) ≡ true
      test {e} again = ground arith

-- `with_retry_mapped` always returns and never panics: it calls the operation once and then again
-- `k` times, for some `k` up to `max_retries`, sleeps the computed delay of each attempt before the
-- next, and its result is the outcome of the last call; every earlier call met an error that is
-- worth a retry, and the last one met none such or was call number `max_retries + 1`.
pub with_retry_mapped_lem :
    {W E T : Type 0} (operation : W → Result E T × W) (c : RetryConfig) (draw : ℕ → ℕ → ℕ)
    (is_retryable : E → Bool) (w : W)
    → (k : ℕ) × RetriedTimes operation is_retryable
        (calculate_delay c draw)
        k
        c.max_retries
        0
        w
        (with_retry_mapped operation c draw is_retryable w)
unfolding with_retry_mapped
with_retry_mapped_lem operation c draw is_retryable w =
    retry_loop_lem operation is_retryable (calculate_delay c draw) c.max_retries expect_error
      c.max_retries 0 none w (omega arith)
