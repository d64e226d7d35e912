-- ===== src/Provider/Retry.antt =====
-- crates/claw-provider/src/retry.rs. The two retry loops of the file have the body of
-- `Retry.retry_loop`; they differ in what follows the loop, which is never reached.
use claw_kernel.Prelude.{
  ℕ, suc, ◌+◌, ◌%◌, min, Bool, true, false, ◌||◌, Option, none, some, List, [], ◌∷◌, ◌==◌, Result,
  err, String,
}
use mathlib.Core.List.{Memᴰ}
use claw_kernel.Retry.{u64, exponential, draw_jitter, Retried, retry_loop, expect_error}
use claw_kernel.Provider.{ProviderError, http, network, rate_limited, other}

pub record RetryConfig : Type 0 where
  pub max_retries : ℕ  -- u32
  pub base_delay : ℕ
  pub max_delay : ℕ
  pub retryable_statuses : List ℕ  -- u16

unfoldable pub default_config : RetryConfig
default_config = record {
  max_retries = 3;
  base_delay = 500;
  max_delay = 60000;
  retryable_statuses = 429 ∷ 500 ∷ 502 ∷ 503 ∷ 504 ∷ [];
}

abbrev contains : List ℕ → ℕ → Bool
contains [] status = false
contains (s ∷ ss) status = s == status || contains ss status

unfoldable pub is_retryable_status : RetryConfig → ℕ → Bool
is_retryable_status c status = contains c.retryable_statuses status

-- `delay_ms + jitter` on u64 wraps.
unfoldable pub calculate_delay : RetryConfig → (ℕ → ℕ → ℕ) → ℕ → ℕ
calculate_delay c draw attempt =
    let delay_ms = min (exponential c.base_delay attempt % u64) (c.max_delay % u64) in
    min ((delay_ms + draw_jitter draw attempt delay_ms) % u64) (c.max_delay % u64)

unfoldable pub is_retryable_error : RetryConfig → ProviderError → Bool
unfolding is_retryable_status
is_retryable_error c (network m) = true
is_retryable_error c (rate_limited s) = true
is_retryable_error c (http status m) = is_retryable_status c status
is_retryable_error c _ = false

-- `Err(last_error.unwrap_or_else(|| ProviderError::Other("Retry exhausted")))`.
abbrev or_exhausted {ℓ} : {T : Type ℓ} → Option ProviderError → Option (Result ProviderError T)
or_exhausted none = some (err (other "Retry exhausted"))
or_exhausted (some e) = some (err e)

module _ {W T : Type 0} (operation : W → Result ProviderError T × W) where
  unfoldable pub with_retry : RetryConfig → (ℕ → ℕ → ℕ) → W → Retried W ProviderError T
  with_retry c draw w =
      retry_loop operation c.max_retries (calculate_delay c draw) (is_retryable_error c)
        or_exhausted (suc c.max_retries) 0 none w

unfoldable pub with_retry_mapped :
    {W E T : Type 0}
    → (W → Result E T × W)
    → RetryConfig
    → (ℕ → ℕ → ℕ)
    → (E → Bool)
    → W
    → Retried W E T
with_retry_mapped operation c draw is_retryable w =
    retry_loop operation c.max_retries (calculate_delay c draw) is_retryable expect_error
      (suc c.max_retries) 0 none w

-- The errors that are worth a retry.
pub data WorthRetry (c : RetryConfig) : ProviderError → Type 0 where
  network_fault : (m : String) → WorthRetry c (network m)
  limited : (seconds : ℕ) → WorthRetry c (rate_limited seconds)
  listed :
      (status : ℕ) (m : String) → Memᴰ status c.retryable_statuses → WorthRetry c (http status m)
