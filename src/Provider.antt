-- ===== src/Provider.antt =====
-- crates/claw-provider: the error type of the language model providers, and the retries.
pub mod Retry
use claw_kernel.Prelude.{ℕ, String}

-- crates/claw-provider/src/error.rs. The `f32` of an invalid temperature is its bit pattern.
pub data ProviderError : Type 0 where
  http : ℕ → String → ProviderError
  network : String → ProviderError
  auth : String → ProviderError
  rate_limited : ℕ → ProviderError
  invalid_request : String → ProviderError
  serialization : String → ProviderError
  stream : String → ProviderError
  model_not_found : String → ProviderError
  context_length_exceeded : ProviderError
  invalid_temperature : ℕ → ProviderError
  other : String → ProviderError
  build_failed : String → ProviderError
