-- ===== src/Driver/Bounds.antt =====
-- The delay before a retry (driver.ts).
use managed_agents.Common.{ℕ, ◌+◌, ◌-◌, ◌*◌, ◌^◌, ◌≤◌, ◌<◌, String, ◌≡◌, ok, arith, >>=-eq-ok}
use Prim.Native.Nat.{min}
use native.Mathlib.Nat.{one-le-pow}
use managed_agents.Driver.Policy.{
  DriverPolicy, check_policy, policy_value, backoff_cap, backoff, jitter,
}

policy_value-eq-ok : (name : String) (n : ℕ) {u : Unit {0}} → policy_value name n ≡ ok u → 1 ≤ n
unfolding policy_value
policy_value-eq-ok name n e = ground arith

-- a policy that the constructor admits
checked_policy :
    (p : DriverPolicy)
    → check_policy p ≡ ok tt
    → (1 ≤ p.retry_base_ms) × (p.retry_base_ms ≤ p.retry_max_ms)
unfolding check_policy
checked_policy p e =
    let (_, _, e₁) = >>=-eq-ok (policy_value "maxSteps" p.max_steps) _ e in
    let (_, _, e₂) = >>=-eq-ok (policy_value "maxSliceMs" p.max_slice_ms) _ e₁ in
    let (_, _, e₃) = >>=-eq-ok (policy_value "providerTimeoutMs" p.provider_timeout_ms) _ e₂ in
    let (_, _, e₄) =
      >>=-eq-ok (policy_value "submissionConcurrency" p.submission_concurrency) _ e₃ in
    let (_, _, e₅) = >>=-eq-ok (policy_value "recoveryMs" p.recovery_ms) _ e₄ in
    let (_, _, e₆) = >>=-eq-ok (policy_value "continuationMs" p.continuation_ms) _ e₅ in
    let (_, base, e₇) = >>=-eq-ok (policy_value "retryBaseMs" p.retry_base_ms) _ e₆ in
    let (_, _, e₈) = >>=-eq-ok (policy_value "retryMaxMs" p.retry_max_ms) _ e₇ in
    let (_, _, e₉) = >>=-eq-ok (policy_value "maxHandlerFailures" p.max_handler_failures) _ e₈ in
    (policy_value-eq-ok "retryBaseMs" p.retry_base_ms base, ground arith)

product-bounds :
    (random delay unit : ℕ)
    → random < unit
    → (delay * unit ≤ delay * (unit + random))
      × (delay * (unit + random) + delay ≤ delay * (2 * unit))
product-bounds random delay unit below = (grind arith, grind arith)

-- the rounded product lies between the half and the whole
jitter-bounds :
    (random delay : ℕ)
    → random < 2 ^ 53
    → (delay ≤ 2 * jitter random delay) × (jitter random delay ≤ delay)
unfolding jitter
jitter-bounds random delay below =
    let (low, high) = product-bounds random delay (2 ^ 53) below in (omega arith, omega arith)

-- Under a policy that the constructor admits and for at most 30 earlier failures, a retry waits between
-- half of the exponential delay and all of it, and at least one millisecond, whatever `Math.random()`
-- gives below one. The exponential delay is the base doubled with every earlier failure, cut at the
-- policy's maximum.
pub backoff-bounds :
    (random : ℕ) (p : DriverPolicy) (failures : ℕ)
    → check_policy p ≡ ok tt
    → random < 2 ^ 53
    → failures ≤ 30
    → (min p.retry_max_ms (p.retry_base_ms * 2 ^ failures) ≤ 2 * backoff random p (failures + 1))
      × (backoff random p (failures + 1) ≤ p.retry_max_ms)
      × (backoff random p (failures + 1) ≤ p.retry_base_ms * 2 ^ failures)
      × (1 ≤ backoff random p (failures + 1))
unfolding backoff backoff_cap
backoff-bounds random p failures checked below few =
    let (positive, ordered) = checked_policy p checked in
    let exponent : min 30 (failures + 1 - 1) ≡ failures = omega arith in
    let power : 1 ≤ p.retry_base_ms * 2 ^ failures =
      grind (arith, one-le-pow failures 2 (omega arith)) in
    let delay = min p.retry_max_ms (p.retry_base_ms * 2 ^ failures) in
    let (low, high) = jitter-bounds random delay below in
    rw exponent (omega arith, omega arith, omega arith, omega arith)
