-- ===== src/Driver/Policy.antt =====
-- The policy of a SessionDriver and the delay before a retry. What `Math.random()` gives is a parameter:
-- the number of its steps of 2^-53 above zero.
use managed_agents.Common.{
  ℕ, ◌+◌, ◌/◌, ◌-◌, ◌*◌, ◌^◌, String, ◌&&◌, leb, [], ◌∷◌, Result, ◌>>◌, require, error,
}
use Prim.Native.Nat.{min, max}
use managed_agents.Contracts.Text.{concat}

pub record DriverPolicy : Type 0 where
  pub max_steps : ℕ
  pub max_slice_ms : ℕ
  pub provider_timeout_ms : ℕ
  pub submission_concurrency : ℕ
  pub recovery_ms : ℕ
  pub continuation_ms : ℕ
  pub retry_base_ms : ℕ
  pub retry_max_ms : ℕ
  pub max_handler_failures : ℕ

abbrev pub default_driver_policy : DriverPolicy
default_driver_policy = record {
  max_steps = 32;
  max_slice_ms = 250;
  provider_timeout_ms = 10000;
  submission_concurrency = 8;
  recovery_ms = 30000;
  continuation_ms = 1;
  retry_base_ms = 500;
  retry_max_ms = 60000;
  max_handler_failures = 5;
}

unfoldable pub policy_value : String → ℕ → Result (Unit {0})
policy_value name value =
    require (leb 1 value && leb value 2147483647)
      (error (concat ("Invalid driver policy: " ∷ name ∷ "." ∷ [])))

-- the checks of the constructor
unfoldable pub check_policy : DriverPolicy → Result (Unit {0})
check_policy p = do
  policy_value "maxSteps" p.max_steps
  policy_value "maxSliceMs" p.max_slice_ms
  policy_value "providerTimeoutMs" p.provider_timeout_ms
  policy_value "submissionConcurrency" p.submission_concurrency
  policy_value "recoveryMs" p.recovery_ms
  policy_value "continuationMs" p.continuation_ms
  policy_value "retryBaseMs" p.retry_base_ms
  policy_value "retryMaxMs" p.retry_max_ms
  policy_value "maxHandlerFailures" p.max_handler_failures
  require (leb p.retry_base_ms p.retry_max_ms) (error "retryMaxMs must be >= retryBaseMs.")

unfoldable pub backoff_cap : DriverPolicy → ℕ → ℕ
backoff_cap p attempt = min p.retry_max_ms (p.retry_base_ms * 2 ^ min 30 (attempt - 1))

-- `Math.round(cap * (0.5 + Math.random() * 0.5))`, where `Math.round` takes halves up
unfoldable pub jitter : ℕ → ℕ → ℕ
jitter random delay = (delay * (2 ^ 53 + random) + 2 ^ 53) / 2 ^ 54

unfoldable pub backoff : ℕ → DriverPolicy → ℕ → ℕ
backoff random p attempt = max 1 (jitter random (backoff_cap p attempt))
