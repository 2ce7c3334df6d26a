-- ===== src/Runtime/Core/Completion.antt =====
-- `prepareCompletion` and `acceptCompletion`: results of accepted operations, admitted once per
-- operation, also before the input that submitted it is committed.
use managed_agents.Common.{
  ℕ, String, Bool, true, false, ◌&&◌, Option, none, some, List, ◌==◌, if◌then◌else◌, find, is_some,
  str_eq, Result, ok, err, ◌>>=◌, ◌>>◌, require, contract, completion_conflict, operation_not_found,
}
use managed_agents.Common.Exec.{Exec, continue}
use managed_agents.Contracts.Json.{Json}
use managed_agents.Contracts.Operation.{OperationCompletion, parse_operation_completion}
use managed_agents.Runtime.Event.{Event, operation_completed, input_hash}
use managed_agents.Runtime.Identity.{operation_identity}
use managed_agents.Runtime.Storage.{Store, InboxRow, PendingOperation, find_input, find_pending}
use managed_agents.Runtime.Harness.{HarnessDefinition}
use managed_agents.Runtime.Core.State.{
  PreparedOperation, PreparedTransition, SessionRuntime, require_session, exclusive,
}
use managed_agents.Runtime.Core.Insert.{insert_next}
use managed_agents.Runtime.Core.Prepare.{prepare}
use managed_agents.Runtime.Core.Settle.{completion_event_id}

pub record CompletionReceipt : Type 0 where
  pub operation_id : String
  pub event_id : String
  pub duplicate : Bool

-- What the check hands to the commit: whether the completion is in the inbox already, and whether it
-- was consumed there.
pub record Admission : Type 0 where
  pub known : Bool
  pub consumed : Bool

unfoldable pub completion_event : OperationCompletion → Event
completion_event c = operation_completed c.operation_id c.provider (some c.job_id) c.outcome

unfoldable pub receipt : OperationCompletion → Bool → CompletionReceipt
receipt c duplicate = record {
  operation_id = c.operation_id;
  event_id = completion_event_id c.operation_id;
  duplicate = duplicate;
}

unfoldable pub unadmitted : Admission
unadmitted = record { known = false; consumed = false }

-- the sequence that a completion's operation names
unfoldable pub derived_sequence : OperationCompletion → Result ℕ
derived_sequence c = do
  sequence ← operation_identity c.operation_id
  require (str_eq c.submission_id c.operation_id) (
      contract completion_conflict "Submission identity must equal the derived operation identity.")
  ok sequence

unfoldable pub same_acceptance : OperationCompletion → PendingOperation → Bool
same_acceptance c p = str_eq p.provider c.provider && str_eq p.job_id c.job_id

unfoldable pub provider_is : Option PreparedOperation → String → Bool
provider_is none provider = false
provider_is (some op) provider = str_eq op.request.provider provider

module _ {T C : Type 0} (sha256 : String → List ℕ) (h : HarnessDefinition T C) where
  -- a prepared transition at the named sequence proposes the operation
  unfoldable pub is_proposed : OperationCompletion → ℕ → Option (PreparedTransition C) → Bool
  is_proposed c sequence none = false
  is_proposed c sequence (some p) =
      p.input.sequence == sequence
      && provider_is
          (find (λ (op : PreparedOperation). str_eq op.operation_id c.operation_id) p.operations)
          c.provider

  unfoldable pub check_proposed : OperationCompletion → ℕ → Exec (SessionRuntime T C) Admission
  check_proposed c sequence r =
      let (planned, r') = prepare sha256 h r in
      continue planned
        (λ p s. (
          require (is_proposed c sequence p)
                (contract operation_not_found "Completion has no pending or prepared operation.")
              >> ok unadmitted,
          s,
        ))
        r'

  unfoldable pub check_pending :
      Option PendingOperation → OperationCompletion → ℕ → Exec (SessionRuntime T C) Admission
  check_pending (some p) c sequence r = (
    require (same_acceptance c p)
          (contract completion_conflict "Completion differs from accepted provider/job.")
        >> ok unadmitted,
    r,
  )
  check_pending none c sequence r = check_proposed c sequence r

  unfoldable pub check_known :
      Option InboxRow → OperationCompletion → ℕ → Exec (SessionRuntime T C) Admission
  check_known (some row) c sequence r = (
    require (str_eq row.event_hash (input_hash sha256 (completion_event c)))
          (contract completion_conflict "Completion content changed.")
        >> ok (record { known = true; consumed = is_some row.consumed_at }),
    r,
  )
  check_known none c sequence r =
      check_pending (find_pending c.operation_id r.store.pending) c sequence r

  unfoldable pub check_identity : OperationCompletion → Exec (SessionRuntime T C) Admission
  check_identity c r =
      continue (derived_sequence c)
        (λ sequence s.
          check_known (find_input (completion_event_id c.operation_id) s.store.inbox) c sequence s)
        r

  -- the closure that `prepareCompletion` returns
  unfoldable pub check_completion : OperationCompletion → Exec (SessionRuntime T C) Admission
  check_completion c =
      exclusive
        λ r. let (found, r') = require_session r in continue found (λ info s. check_identity c s) r'

module _ {T : Type 0} (sha256 : String → List ℕ) (now : ℕ) where
  -- the transaction of a new completion
  unfoldable pub insert_completion : OperationCompletion → Store T → Result (Store T)
  insert_completion c store =
      insert_next now (completion_event_id c.operation_id) (completion_event c)
        (input_hash sha256 (completion_event c)) store.inbox
      >>= λ inserted. ok (record store { inbox = inserted.1 })

module _ {T C : Type 0} (sha256 : String → List ℕ) (now : ℕ) where
  unfoldable pub keep_completion :
      OperationCompletion → Result (Store T) → Exec (SessionRuntime T C) CompletionReceipt
  keep_completion c (err e) r = (err e, r)
  keep_completion c (ok store) r = (ok (receipt c false), record r { store = store })

  -- The `commit` of an admission, which its holder calls once: a second call throws.
  unfoldable pub commit_completion :
      OperationCompletion → Admission → Exec (SessionRuntime T C) CompletionReceipt
  commit_completion c a r =
      if a.known
      then (ok (receipt c true), r)
      else exclusive (λ s. keep_completion c (insert_completion sha256 now c s.store) s) r

module _ {T C : Type 0} (sha256 : String → List ℕ) (h : HarnessDefinition T C) (now : ℕ) where
  unfoldable pub accept_checked : OperationCompletion → Exec (SessionRuntime T C) CompletionReceipt
  accept_checked c r =
      let (checked, r') = check_completion sha256 h c r in
      continue checked (λ a s. commit_completion sha256 now c a s) r'

  unfoldable pub accept_completion : Json → Exec (SessionRuntime T C) CompletionReceipt
  accept_completion value r = continue (parse_operation_completion value) accept_checked r
