-- ===== src/Retry.antt =====
-- crates/claw-pal/src/retry.rs: the backoff delay and the retry loop.
-- Durations are given by `as_millis()`. The random number generator is the parameter `draw`: the
-- number drawn before the retry after a given attempt, from a range below a given bound. A run of
-- an asynchronous operation takes the world to an outcome and the next world.
pub mod Delay
pub mod Attempts
use claw_kernel.Prelude.{
  ℕ, zero, suc, ◌+◌, ◌-◌, ◌*◌, ◌%◌, ◌^◌, min, Bool, true, false, ◌&&◌, Option, none, some, List, [],
  ◌∷◌, if◌then◌else◌, ltb, Result, ok, err,
}

abbrev pub u64 : ℕ
u64 = 18446744073709551616

abbrev pub u128 : ℕ
u128 = 340282366920938463463374607431768211456

pub record RetryConfig : Type 0 where
  pub max_retries : ℕ  -- u32
  pub base_delay : ℕ
  pub max_delay : ℕ

-- `RetryConfig::default()`.
unfoldable pub default_config : RetryConfig
default_config = record { max_retries = 3; base_delay = 500; max_delay = 30000 }

-- `a.saturating_mul(b)` on u128.
abbrev pub saturating_mul : ℕ → ℕ → ℕ
saturating_mul a b = min (a * b) (u128 - 1)

-- `base_delay.saturating_mul(2u128.pow(attempt))`, where `pow` wraps in a release build; a debug build
-- panics there, from attempt 128 on.
unfoldable pub exponential : ℕ → ℕ → ℕ
exponential base attempt = saturating_mul base (2 ^ attempt % u128)

-- `if cap > 0 { gen_range(0..cap) } else { 0 }`.
unfoldable pub draw_jitter : (ℕ → ℕ → ℕ) → ℕ → ℕ → ℕ
draw_jitter draw attempt cap = if ltb 0 cap then draw attempt cap else 0

unfoldable pub cap_ms : RetryConfig → ℕ → ℕ
cap_ms c attempt = min (exponential c.base_delay attempt % u64) (c.max_delay % u64)

unfoldable pub calculate_delay : RetryConfig → (ℕ → ℕ → ℕ) → ℕ → ℕ
calculate_delay c draw attempt =
    let cap = cap_ms c attempt in
    min (min (cap + draw_jitter draw attempt cap) (u64 - 1)) (c.max_delay % u64)

-- What a retried operation leaves behind: its result (`none` is a panic), the world after it, the
-- number of calls made and the delays slept.
pub record Retried (W E T : Type 0) : Type 0 where
  pub result : Option (Result E T)
  pub world : W
  pub calls : ℕ
  pub sleeps : List ℕ

module _ {W E T : Type 0} (operation : W → Result E T × W) (max_retries : ℕ) (delay : ℕ → ℕ)
    (is_retryable : E → Bool) (exhausted : Option E → Option (Result E T)) where
  after_sleep : ℕ → Retried W E T → Retried W E T
  after_sleep ms r = record r { calls = suc r.calls; sleeps = ms ∷ r.sleeps }

  -- The rounds of `for attempt in 0..=max_retries` that are left, from `attempt` on.
  unfoldable pub retry_loop : ℕ → ℕ → Option E → W → Retried W E T
  unfolding after_sleep
  retry_loop zero attempt last_error w = record {
    result = exhausted last_error;
    world = w;
    calls = 0;
    sleeps = [];
  }
  retry_loop (suc rounds) attempt last_error w =
      let (outcome, w') = operation w in
      elim outcome [
        | ok t ↦ record { result = some (ok t); world = w'; calls = 1; sleeps = [] }
        | err e ↦ elim (ltb attempt max_retries && is_retryable e) [
          | true ↦ after_sleep (delay attempt) (retry_loop rounds (suc attempt) (some e) w')
          | false ↦ record { result = some (err e); world = w'; calls = 1; sleeps = [] }
        ]
      ]

-- `last_error.expect(..)`.
abbrev pub expect_error {ℓ κ} : {E : Type ℓ} {T : Type κ} → Option E → Option (Result E T)
expect_error none = none
expect_error (some e) = some (err e)

unfoldable pub with_retry_mapped :
    {W E T : Type 0}
    → (W → Result E T × W)
    → RetryConfig
    → (ℕ → ℕ → ℕ)
    → (E → Bool)
    → W
    → Retried W E T
with_retry_mapped operation c draw is_retryable w =
    retry_loop operation c.max_retries (calculate_delay c draw) is_retryable expect_error
      (suc c.max_retries) 0 none w
