-- ===== src/Channel/Retry.antt =====
-- crates/claw-channel/src/retry.rs: the channel that retries `send` and `recv`. The inner channel
-- is given by its operations, which take the world to an outcome and the next world.
use claw_kernel.Prelude.{
  ℕ, zero, suc, ◌+◌, ◌≡◌, refl, ap, inl, inr, Bool, true, false, Option, none, some, [], ◌∷◌, ◌==◌,
  Result, ok, err, arith, Bool-cases, Result-cases, ltb, ◌&&◌,
}
use claw_kernel.Retry.{
  RetryConfig, Retried, retry_loop, calculate_delay, with_retry_mapped, expect_error,
}
use claw_kernel.Channel.{ChannelError, auth_failed, invalid_config}

unfoldable pub is_retryable : ChannelError → Bool
is_retryable auth_failed = false
is_retryable (invalid_config m) = false
is_retryable _ = true

-- The inner channel, with `M` the messages.
pub record Inner (W M : Type 0) : Type 0 where
  pub send : M → W → Result ChannelError (Unit {0}) × W
  pub recv : W → Result ChannelError M × W
  pub connect : W → Result ChannelError (Unit {0}) × W
  pub disconnect : W → Result ChannelError (Unit {0}) × W

&&-false : (b : Bool) → (b && false) ≡ false
&&-false true = refl
&&-false false = refl

module _ {W M : Type 0} (inner : Inner W M) (retry_config : RetryConfig) (draw : ℕ → ℕ → ℕ) where
  unfoldable pub send : M → W → Retried W ChannelError (Unit {0})
  send message w = with_retry_mapped (inner.send message) retry_config draw is_retryable w

  after_reconnect : ℕ → Retried W ChannelError M → Retried W ChannelError M
  after_reconnect ms r = record r { calls = suc r.calls; sleeps = ms ∷ r.sleeps }

  -- The rounds of `for attempt in 0..=max_retries` that are left; `none` is the `unreachable!`.
  unfoldable pub recv_loop : ℕ → ℕ → W → Retried W ChannelError M
  unfolding after_reconnect
  recv_loop zero attempt w = record { result = none; world = w; calls = 0; sleeps = [] }
  recv_loop (suc rounds) attempt w =
      let (outcome, w') = inner.recv w in
      elim outcome [
        | ok msg ↦ record { result = some (ok msg); world = w'; calls = 1; sleeps = [] }
        | err e ↦ elim (is_retryable e) [
          | false ↦ record { result = some (err e); world = w'; calls = 1; sleeps = [] }
          | true ↦ elim (attempt == retry_config.max_retries) [
            | true ↦ record { result = some (err e); world = w'; calls = 1; sleeps = [] }
            | false ↦
                after_reconnect (calculate_delay retry_config draw attempt)
                  (recv_loop rounds (suc attempt) (inner.connect w').1)
          ]
        ]
      ]

  unfoldable pub recv : W → Retried W ChannelError M
  recv w = recv_loop (suc retry_config.max_retries) 0 w

  unfoldable pub connect : W → Result ChannelError (Unit {0}) × W
  connect w = inner.connect w

  unfoldable pub disconnect : W → Result ChannelError (Unit {0}) × W
  disconnect w = inner.disconnect w

  -- A receive that first reconnects, unless it is the first.
  abbrev enter : Bool → W → W
  enter false w = w
  enter true w = (inner.connect w).1

  abbrev pub reconnect_recv : Bool × W → Result ChannelError M × (Bool × W)
  reconnect_recv (again, w) =
      let (outcome, w') = inner.recv (enter again w) in (outcome, (true, w'))

  abbrev pub forget_flag : Retried (Bool × W) ChannelError M → Retried W ChannelError M
  forget_flag r = record {
    result = r.result;
    world = r.world.1;
    calls = r.calls;
    sleeps = r.sleeps;
  }

  recv_loop_lem :
      (left attempt : ℕ) (again : Bool) (last_error : Option ChannelError) (w : W)
      → attempt + left ≡ retry_config.max_retries
      → recv_loop (suc left) attempt (enter again w)
        ≡ forget_flag (
            retry_loop reconnect_recv retry_config.max_retries
              (calculate_delay retry_config draw)
              is_retryable
              expect_error
              (suc left)
              attempt
              last_error
              (again, w))
  unfolding recv_loop retry_loop
  recv_loop_lem zero attempt again last_error w sum =
      elim (Result-cases (inner.recv (enter again w)).0) [
        | inl (msg, got) ↦ rw (got, recv_loop, retry_loop)
        | inr (e, failed) ↦ elim (Bool-cases (is_retryable e)) [
          | inl transient ↦
              rw (failed, recv_loop, retry_loop)
                (rw (transient, recv_loop, retry_loop)
                  (rw (at_end, no_more, recv_loop, retry_loop)))
          | inr permanent ↦
              rw (failed, recv_loop, retry_loop)
                (rw (permanent, recv_loop, retry_loop) (rw (&&-false, retry_loop)))
        ]
      ]
    where
      at_end : (attempt == retry_config.max_retries) ≡ true
      at_end = ground arith

      no_more : ltb attempt retry_config.max_retries ≡ false
      no_more = ground arith
  recv_loop_lem (suc left) attempt again last_error w sum =
      elim (Result-cases (inner.recv (enter again w)).0) [
        | inl (msg, got) ↦ rw (got, recv_loop, retry_loop)
        | inr (e, failed) ↦ elim (Bool-cases (is_retryable e)) [
          | inl transient ↦
              rw (failed, recv_loop, retry_loop)
                (rw (transient, recv_loop, retry_loop)
                  (rw (not_end, more, recv_loop, retry_loop)
                    (ap (after_reconnect (calculate_delay retry_config draw attempt)) (
                      recv_loop_lem left (suc attempt) true (some e) (inner.recv (enter again w)).1
                        (omega arith)))))
          | inr permanent ↦
              rw (failed, recv_loop, retry_loop)
                (rw (permanent, recv_loop, retry_loop) (rw (&&-false, retry_loop)))
        ]
      ]
    where
      not_end : (attempt == retry_config.max_retries) ≡ false
      not_end = ground arith

      more : ltb attempt retry_config.max_retries ≡ true
      more = ground arith

-- `recv` is the plain retry of an operation that reconnects, whether that works or not, and then
-- receives, where the first call does not reconnect: it gives the same result after the same
-- number of calls and the same sleeps, in the same world.
pub recv_retries_reconnect :
    {W M : Type 0} (inner : Inner W M) (c : RetryConfig) (draw : ℕ → ℕ → ℕ) (w : W)
    → recv inner c draw w
      ≡ forget_flag inner c draw
          (with_retry_mapped (reconnect_recv inner c draw) c draw is_retryable (false, w))
unfolding recv with_retry_mapped
recv_retries_reconnect inner c draw w =
    recv_loop_lem inner c draw c.max_retries 0 false none w (omega arith)
