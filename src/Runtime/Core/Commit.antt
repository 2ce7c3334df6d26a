-- ===== src/Runtime/Core/Commit.antt =====
-- `commit`: the atomic step that consumes the first input with its effects.

use managed_agents.Common.{
  ℕ, String, Bool, false, not, ◌||◌, Option, none, some, List, [], ◌∷◌, ◌==◌, if◌then◌else◌, length,
  any, str_eq, Result, ok, err, ◌>>=◌, ◌>>◌, require, refuse, error,
}
use managed_agents.Common.Exec.{Exec, continue}
use managed_agents.Contracts.Json.{Json}
use managed_agents.Contracts.Session.{SessionInfo}
use managed_agents.Contracts.Operation.{ProviderSubmitResult, parse_provider_submit_result}
use managed_agents.Runtime.Event.{Event, external, operation_completed}
use managed_agents.Runtime.Storage.{
  Store, InboxRow, PendingOperation, next_row, consume_input, delete_pending,
}
use managed_agents.Runtime.Harness.{HarnessStatus, HarnessDefinition}
use managed_agents.Runtime.Core.State.{
  PreparedOperation, PreparedTransition, SessionRuntime, require_session, exclusive,
}
use managed_agents.Runtime.Core.Insert.{timestamp}
use managed_agents.Runtime.Core.Settle.{settle_operations}

pub record SubmissionReceipt : Type 0 where
  pub operation_id : String
  pub result : Json

pub record ProcessNextResult : Type 0 where
  pub event_id : String
  pub sequence : ℕ
  pub status : Option HarnessStatus

-- the receipts by operation: each of an operation of the transition, none twice
unfoldable pub collect_receipts :
    List PreparedOperation
    → List (String × ProviderSubmitResult)
    → List SubmissionReceipt
    → Result (List (String × ProviderSubmitResult))
collect_receipts operations results [] = ok results
collect_receipts operations results (r ∷ rest) =
    refuse
      (any (λ s. str_eq s.0 r.operation_id) results
        || not (any (λ (p : PreparedOperation). str_eq p.operation_id r.operation_id) operations))
      (error "Invalid or duplicate submission receipt.")
    >> (parse_provider_submit_result r.result >>= λ result.
        collect_receipts operations ((r.operation_id, result) ∷ results) rest)

-- a consumed completion ends its operation
unfoldable pub close_operation : Event → List PendingOperation → List PendingOperation
close_operation (external type payload) pending = pending
close_operation (operation_completed id provider job_id outcome) pending = delete_pending id pending

unfoldable pub is_head : Option InboxRow → String → Bool
is_head none id = false
is_head (some r) id = str_eq r.event_id id

module _ {T C : Type 0} where
  unfoldable pub consume : PreparedTransition C → ℕ → Store T → Store T
  consume p at store = record store {
    pending = close_operation p.input.event store.pending;
    inbox = consume_input p.input.event_id at store.inbox;
  }

module _ {T C : Type 0} (sha256 : String → List ℕ) (now : ℕ) (h : HarnessDefinition T C) where
  -- the transaction of a commit
  unfoldable pub commit_store :
      SessionInfo
      → PreparedTransition C
      → List (String × ProviderSubmitResult)
      → Store T
      → Result (Store T)
  commit_store info p results store = do
    require (is_head (next_row store.inbox) p.input.event_id)
        (error "Transition is no longer the inbox head.")
    tables ← h.apply p.changes info store.tables
    settled ←
        settle_operations sha256 now p.input.sequence results p.operations
          (record store { tables = tables })
    at ← timestamp now
    ok (consume p at settled)

  unfoldable pub keep_committed :
      PreparedTransition C → Result (Store T) → Exec (SessionRuntime T C) ProcessNextResult
  keep_committed p (err e) r = (err e, r)
  keep_committed p (ok store) r = (
    ok (record { event_id = p.input.event_id; sequence = p.input.sequence; status = p.status }),
    record r { store = store; prepared = none },
  )

  unfoldable pub commit_session :
      PreparedTransition C
      → List (String × ProviderSubmitResult)
      → Exec (SessionRuntime T C) ProcessNextResult
  commit_session p results r =
      let (found, r') = require_session r in
      continue found (λ info s. keep_committed p (commit_store info p results s.store) s) r'

  unfoldable pub is_current : Option (PreparedTransition C) → PreparedTransition C → Bool
  is_current none p = false
  is_current (some q) p = q.reference == p.reference

  -- the receipts of every operation of the transition
  unfoldable pub all_receipts :
      PreparedTransition C → List SubmissionReceipt → Result (List (String × ProviderSubmitResult))
  all_receipts p receipts = do
    results ← collect_receipts p.operations [] receipts
    require (length results == length p.operations)
        (error "Every submission must be resolved before commit.")
    ok results

  unfoldable pub commit_current :
      PreparedTransition C
      → Result (List (String × ProviderSubmitResult))
      → Exec (SessionRuntime T C) ProcessNextResult
  commit_current p (err e) r = (err e, r)
  commit_current p (ok results) r = commit_session p results r

  unfoldable pub commit :
      PreparedTransition C → List SubmissionReceipt → Exec (SessionRuntime T C) ProcessNextResult
  commit p receipts = exclusive λ r.
      if is_current r.prepared p
      then commit_current p (all_receipts p receipts) r
      else (err (error "Transition does not belong to this runtime."), r)
