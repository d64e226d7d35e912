-- ===== src/Examples/Retries.antt =====
-- The retry loops and the backoff delays at concrete inputs.
use claw_kernel.Prelude.{
  ℕ, zero, suc, ◌+◌, ◌*◌, ◌/◌, ◌^◌, ◌≤◌, ◌<◌, ◌≡◌, ◌⊎◌, refl, true, false, String, min, Result, ok,
  err, arith,
}
use claw_kernel.Retry.{
  default_config, draw_jitter, cap_ms, exponential, calculate_delay, retry_loop, with_retry_mapped,
}
use claw_kernel.Retry.Delay.{calculate_delay_formula, calculate_delay_collapses}
use claw_kernel.Retry.Attempts.{RetriedTimes, with_retry_mapped_lem}
use claw_kernel.Provider.{ProviderError, network}
use claw_kernel.Provider.Retry
use claw_kernel.Provider.Retry.{with_retry, is_retryable_error}
use claw_kernel.Channel.{ChannelError, disconnected}
use claw_kernel.Channel.Retry.{
  Inner, is_retryable, recv, reconnect_recv, forget_flag, recv_retries_reconnect,
}

-- Half of the range.
abbrev half_draw : ℕ → ℕ → ℕ
half_draw attempt bound = bound / 2

half_in_range : (attempt bound : ℕ) → 0 < bound → half_draw attempt bound < bound
half_in_range attempt bound h = omega arith

third_delay : calculate_delay default_config half_draw 2 ≡ 3000
unfolding calculate_delay default_config draw_jitter cap_ms exponential
third_delay = refl

calculate_delay_formula_example :
    let delay =
      calculate_delay
        (record { max_retries = 3; base_delay = 500; max_delay = 30000 })
        half_draw
        2 in
    let cap = min (500 * 2 ^ 2) 30000 in
    let jitter = draw_jitter half_draw 2 cap in
    (delay ≡ min (500 * 2 ^ 2 + jitter) 30000)
    × ((jitter < cap) ⊎ ((cap ≡ 0) × (jitter ≡ 0)))
    × (cap ≤ delay)
    × (delay ≤ 30000)
    × ((delay < 2 * (500 * 2 ^ 2)) ⊎ ((500 * 2 ^ 2 ≡ 0) × (delay ≡ 0)))
calculate_delay_formula_example =
    calculate_delay_formula (record { max_retries = 3; base_delay = 500; max_delay = 30000 })
      half_draw 2 half_in_range (omega arith) (omega arith) (omega arith)

calculate_delay_collapses_example :
    calculate_delay
      (record { max_retries = 90; base_delay = 500; max_delay = 30000 })
      half_draw
      (64 + 3)
    ≡ 0
calculate_delay_collapses_example =
    calculate_delay_collapses (record { max_retries = 90; base_delay = 500; max_delay = 30000 })
      half_draw 3 (omega arith) (omega arith)

-- A provider that answers from the third call on; the world counts the calls.
third_time : ℕ → Result ProviderError String × ℕ
third_time zero = (err (network "reset"), 1)
third_time (suc zero) = (err (network "reset"), 2)
third_time (suc (suc n)) = (ok "hello", suc (suc (suc n)))

third_time_works : (with_retry third_time Retry.default_config half_draw 0).calls ≡ 3
unfolding with_retry retry_loop third_time Retry.default_config is_retryable_error
third_time_works = refl

with_retry_mapped_lem_example :
    (k : ℕ) × RetriedTimes third_time
      (λ e. true)
      (calculate_delay default_config half_draw)
      k
      default_config.max_retries
      0
      0
      (with_retry_mapped third_time default_config half_draw (λ e. true) 0)
with_retry_mapped_lem_example =
    with_retry_mapped_lem third_time default_config half_draw (λ e. true) 0

-- A channel that delivers once it has been connected twice; the world counts the connections.
flaky_recv : ℕ → Result ChannelError String × ℕ
flaky_recv zero = (err disconnected, 0)
flaky_recv (suc zero) = (err disconnected, 1)
flaky_recv (suc (suc n)) = (ok "news", suc (suc n))

abbrev flaky : Inner ℕ String
flaky = record {
  send = λ m w. (ok tt, w);
  recv = flaky_recv;
  connect = λ w. (err disconnected, suc w);
  disconnect = λ w. (ok tt, w);
}

recv_retries_reconnect_example :
    recv flaky default_config half_draw 0
    ≡ forget_flag flaky default_config half_draw (
        with_retry_mapped
          (reconnect_recv flaky default_config half_draw)
          default_config
          half_draw
          is_retryable
          (false, 0))
recv_retries_reconnect_example = recv_retries_reconnect flaky default_config half_draw 0
