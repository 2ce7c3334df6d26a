-- ===== src/Runtime/Core/Settle.antt =====
-- What the answers of a transition's submissions write: pending operations and completions.
use Prim.Native.String.{◌++◌ as append}
use managed_agents.Common.{
  ℕ, String, Option, none, some, List, [], ◌∷◌, if◌then◌else◌, str_eq, Result, ok, err, ◌>>=◌, ◌>>◌,
  require, contract, error, completion_conflict,
}
use managed_agents.Contracts.Operation.{
  OperationOutcome, failed, submission, ProviderSubmitResult, accepted, completed, rejected,
}
use managed_agents.Runtime.Event.{Event, operation_completed, input_hash}
use managed_agents.Runtime.Storage.{Store, InboxRow, find_input, insert_pending}
use managed_agents.Runtime.Core.State.{PreparedOperation}
use managed_agents.Runtime.Core.Insert.{insert_next}

unfoldable pub completion_event_id : String → String
completion_event_id id = append "runtime:operation:" id

-- the value under a key of an association list
unfoldable pub lookup : {A : Type 0} → String → List (String × A) → Option A
lookup key [] = none
lookup key ((k, v) ∷ rest) = if str_eq k key then some v else lookup key rest

module _ {T : Type 0} (sha256 : String → List ℕ) (now : ℕ) where
  unfoldable pub queue_new : String → Event → String → Store T → Result (Store T)
  queue_new event_id event hash store =
      insert_next now event_id event hash store.inbox >>= λ inserted.
      ok (record store { inbox = inserted.1 })

  unfoldable pub queue_known :
      Option InboxRow → String → Event → String → Store T → Result (Store T)
  queue_known none event_id event hash store = queue_new event_id event hash store
  queue_known (some row) event_id event hash store =
      require (str_eq row.event_hash hash)
        (contract completion_conflict "Completion content changed.")
      >> ok store

  -- `#queueCompletion`
  unfoldable pub queue_completion :
      String → String → Option String → OperationOutcome → Store T → Result (Store T)
  queue_completion id provider job_id outcome store =
      queue_known (find_input (completion_event_id id) store.inbox) (completion_event_id id)
        (operation_completed id provider job_id outcome)
        (input_hash sha256 (operation_completed id provider job_id outcome)) store

  unfoldable pub accept_operation : ℕ → PreparedOperation → String → Store T → Result (Store T)
  accept_operation sequence op job_id store = do
    pending ←
        insert_pending
          (record {
            operation_id = op.operation_id;
            source_input_sequence = sequence;
            key = op.key;
            provider = op.request.provider;
            job_id = job_id;
          })
          store.inbox store.pending
    ok (record store { pending = pending })

  -- what one submission's answer writes
  unfoldable pub settle_operation :
      ℕ → PreparedOperation → Option ProviderSubmitResult → Store T → Result (Store T)
  settle_operation sequence op none store = err (error "Missing submission receipt.")
  settle_operation sequence op (some (rejected e)) store =
      queue_completion op.operation_id op.request.provider none (failed submission e) store
  settle_operation sequence op (some (accepted job_id)) store =
      accept_operation sequence op job_id store
  settle_operation sequence op (some (completed job_id outcome)) store =
      accept_operation sequence op job_id store >>= λ s.
      queue_completion op.operation_id op.request.provider (some job_id) outcome s

  unfoldable pub settle_operations :
      ℕ → List (String × ProviderSubmitResult) → List PreparedOperation → Store T → Result (Store T)
  settle_operations sequence results [] store = ok store
  settle_operations sequence results (op ∷ rest) store =
      settle_operation sequence op (lookup op.operation_id results) store >>= λ s.
      settle_operations sequence results rest s
