-- ===== src/Retry/Delay.antt =====
-- The backoff delay against its documented formula, and where the conversion to u64 breaks it.
use native.Mathlib.Nat.{add-suc, pow-suc, pow-le-pow_right}
use claw_kernel.Prelude.{
  ℕ, zero, suc, ◌+◌, ◌-◌, ◌*◌, ◌^◌, ◌%◌, ◌≤◌, ◌<◌, ◌≡◌, ◌⊎◌, inl, inr, refl, arith, min,
}
use claw_kernel.Retry.{RetryConfig, u64, u128, exponential, cap_ms, calculate_delay, draw_jitter}

-- The generator's contract: a number below the bound, where the range is not empty.
abbrev pub InRange : (ℕ → ℕ → ℕ) → Type 0
InRange draw = (attempt bound : ℕ) → 0 < bound → draw attempt bound < bound

exponential_exact :
    (base attempt : ℕ)
    → 2 ^ attempt < u128
    → base * 2 ^ attempt < u64
    → exponential base attempt ≡ base * 2 ^ attempt
unfolding exponential
exponential_exact base attempt p q =
    let small : 2 ^ attempt % u128 ≡ 2 ^ attempt = omega arith in rw small (omega arith)

-- The range is half-open.
draw_jitter-lt :
    (draw : ℕ → ℕ → ℕ) (attempt cap : ℕ)
    → InRange draw
    → (draw_jitter draw attempt cap < cap) ⊎ ((cap ≡ 0) × (draw_jitter draw attempt cap ≡ 0))
unfolding draw_jitter
draw_jitter-lt draw attempt zero in_range = inr (refl, refl)
draw_jitter-lt draw attempt (suc n) in_range = inl (ground (arith, in_range attempt (suc n)))

cap_ms_exact :
    (c : RetryConfig) (attempt : ℕ)
    → 2 ^ attempt < u128
    → c.base_delay * 2 ^ attempt < u64
    → c.max_delay < u64
    → cap_ms c attempt ≡ min (c.base_delay * 2 ^ attempt) c.max_delay
unfolding cap_ms
cap_ms_exact c attempt p q r = rw (exponential_exact c.base_delay attempt p q) (omega arith)

two_pow_add_64 : (k : ℕ) → 2 ^ (64 + k) ≡ u64 * 2 ^ k
two_pow_add_64 zero = refl
two_pow_add_64 (suc k) = rw (add-suc, pow-suc, pow-suc) (omega (arith, two_pow_add_64 k))

cap_ms_collapses :
    (c : RetryConfig) (k : ℕ) → k < 64 → c.base_delay * 2 ^ (64 + k) < u128 → cap_ms c (64 + k) ≡ 0
unfolding cap_ms exponential
cap_ms_collapses c k small fits = rw (two_pow_add_64 k) (rw no_wrap (omega (arith, fits')))
  where
    fits' : c.base_delay * (u64 * 2 ^ k) < u128
    fits' = rw (two_pow_add_64 k) at fits

    no_wrap : u64 * 2 ^ k % u128 ≡ u64 * 2 ^ k
    no_wrap = omega (arith, pow-le-pow_right {n = 2} (omega arith) {i = k} {j = 63} (omega arith))

bounded :
    (exp maximal jitter : ℕ)
    → maximal < u64
    → exp < u64
    → (jitter < min exp maximal) ⊎ ((min exp maximal ≡ 0) × (jitter ≡ 0))
    → let cap = min exp maximal in
      let delay = min (min (cap + jitter) (u64 - 1)) (maximal % u64) in
      (delay ≡ min (exp + jitter) maximal)
      × ((jitter < cap) ⊎ ((cap ≡ 0) × (jitter ≡ 0)))
      × (cap ≤ delay)
      × (delay ≤ maximal)
      × ((delay < 2 * exp) ⊎ ((exp ≡ 0) × (delay ≡ 0)))
bounded exp maximal jitter r q (inl below) =
    (omega arith, inl below, omega arith, omega arith, inl (omega arith))
bounded zero maximal jitter r q (inr (none, zero_jitter)) =
    (omega arith, inr (none, zero_jitter), omega arith, omega arith, inr (refl, omega arith))
bounded (suc exp) maximal jitter r q (inr (none, zero_jitter)) =
    (omega arith, inr (none, zero_jitter), omega arith, omega arith, inl (omega arith))

-- As long as the uncapped delay and the maximum fit into 64 bits, the delay is the documented
-- `min(base * 2^attempt + jitter, max_delay)`, where the jitter is below the smaller of
-- `base * 2^attempt` and the maximum, or zero with it. So the delay lies between that smaller one
-- and the maximum, and is below twice `base * 2^attempt`, or both are zero.
pub calculate_delay_formula :
    (c : RetryConfig) (draw : ℕ → ℕ → ℕ) (attempt : ℕ)
    → InRange draw
    → 2 ^ attempt < u128
    → c.base_delay * 2 ^ attempt < u64
    → c.max_delay < u64
    → let exp = c.base_delay * 2 ^ attempt in
      let cap = min exp c.max_delay in
      let jitter = draw_jitter draw attempt cap in
      (calculate_delay c draw attempt ≡ min (exp + jitter) c.max_delay)
      × ((jitter < cap) ⊎ ((cap ≡ 0) × (jitter ≡ 0)))
      × (cap ≤ calculate_delay c draw attempt)
      × (calculate_delay c draw attempt ≤ c.max_delay)
      × ((calculate_delay c draw attempt < 2 * exp)
          ⊎ ((exp ≡ 0) × (calculate_delay c draw attempt ≡ 0)))
unfolding calculate_delay
calculate_delay_formula c draw attempt in_range p q r = rw (cap_ms_exact c attempt p q r) (
    bounded (c.base_delay * 2 ^ attempt) c.max_delay _ r q (draw_jitter-lt draw attempt _ in_range))

-- From attempt 64 on, while the uncapped delay fits into 128 bits, the conversion to u64 drops all
-- of it: the delay is zero, whatever the base and the maximum.
pub calculate_delay_collapses :
    (c : RetryConfig) (draw : ℕ → ℕ → ℕ) (k : ℕ)
    → k < 64
    → c.base_delay * 2 ^ (64 + k) < u128
    → calculate_delay c draw (64 + k) ≡ 0
unfolding calculate_delay draw_jitter
calculate_delay_collapses c draw k small fits = rw (cap_ms_collapses c k small fits) (omega arith)
