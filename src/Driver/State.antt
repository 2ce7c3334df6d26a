-- ===== src/Driver/State.antt =====
-- A SessionDriver, its alarm, and what a failure writes. Logging and the published status are not part
-- of it.
use managed_agents.Common.{
  ℕ, ◌+◌, String, Bool, true, false, not, ◌&&◌, leb, ltb, Option, none, some, is_some, List,
  if◌then◌else◌,
}
use Prim.Native.Nat.{max}
use managed_agents.Contracts.Json.{Json}
use managed_agents.Runtime.Storage.{InboxRow, ProcessingStatus, processing_status, fail_processing}
use managed_agents.Runtime.Core.State.{SessionRuntime}
use managed_agents.Driver.Policy.{DriverPolicy, backoff}

-- `receipts` are the answers to the operations of the input `receipt_input`.
pub record SessionDriver (T C : Type 0) : Type 0 where
  pub runtime : SessionRuntime T C
  pub alarm : Option ℕ
  pub receipt_input : Option String
  pub receipts : List (String × Json)

unfoldable pub later_than : Option ℕ → ℕ → Bool
later_than none due = true
later_than (some at) due = ltb due at

-- a time before which nothing is retried
unfoldable pub not_before : Option ℕ → ℕ → Bool
not_before none now = false
not_before (some at) now = ltb now at

unfoldable pub is_blocked_by : DriverPolicy → ProcessingStatus → Bool → Bool
is_blocked_by p progress handler_failure =
    handler_failure && leb p.max_handler_failures (progress.failures + 1)

-- there is an input to process now
unfoldable pub is_due : ProcessingStatus → ℕ → Bool
is_due progress now =
    is_some progress.pending_event_id
    && not progress.blocked
    && not (not_before progress.retry_at now)

-- `progress.retryAt ?? Date.now()`
unfoldable pub retry_due : Option ℕ → ℕ → ℕ
retry_due none now = now
retry_due (some at) now = at

module _ {T C : Type 0} where
  -- `#arm`
  unfoldable pub arm : DriverPolicy → ℕ → SessionDriver T C → SessionDriver T C
  arm p now d =
      if later_than d.alarm (now + p.recovery_ms)
      then record d { alarm = some (now + p.recovery_ms) }
      else d

  unfoldable pub with_inbox : List InboxRow → SessionDriver T C → SessionDriver T C
  with_inbox rows d = record d {
    runtime = record d.runtime { store = record d.runtime.store { inbox = rows } };
  }

  -- `#failed`
  unfoldable pub failed :
      ℕ
      → DriverPolicy
      → ℕ
      → ProcessingStatus
      → String
      → Bool
      → SessionDriver T C
      → SessionDriver T C
  failed random p now progress message handler_failure d =
      with_inbox
        (fail_processing progress (now + backoff random p (progress.failures + 1))
          (is_blocked_by p progress handler_failure) message d.runtime.store.inbox)
        d

  -- the last step of a slice
  unfoldable pub schedule : DriverPolicy → ℕ → SessionDriver T C → SessionDriver T C
  schedule p now d =
      let progress = processing_status d.runtime.store.inbox in
      if is_some progress.pending_event_id && not progress.blocked
      then record d {
        alarm = some (max (now + p.continuation_ms) (retry_due progress.retry_at now));
      }
      else record d { alarm = none }
