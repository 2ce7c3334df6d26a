-- ===== src/Runtime/Core/Prepare.antt =====
-- `#prepare` and `prepareNext`: the read-only planning of the inbox's first input.
use managed_agents.Common.{
  ℕ, ◌+◌, String, Bool, false, ◌&&◌, ◌||◌, Option, none, some, List, [], ◌∷◌, str_eq, Result, ok,
  err, ◌>>=◌, ◌>>◌, require, refuse, contract, error, completion_conflict, invalid_request,
}
use managed_agents.Common.Exec.{Exec, continue}
use managed_agents.Contracts.Text.{includes}
use managed_agents.Contracts.Json.{Json, str, obj, end, field}
use managed_agents.Contracts.Session.{SessionInfo}
use managed_agents.Contracts.Operation.{
  OperationRequest, is_submission_failure, parse_operation_request,
}
use managed_agents.Runtime.Event.{Event, external, operation_completed}
use managed_agents.Runtime.Identity.{operation_id, operation_key}
use managed_agents.Runtime.Storage.{Store, Envelope, PendingOperation, next_input, find_pending}
use managed_agents.Runtime.Harness.{HarnessDefinition, PlannedOperation, ReadContext}
use managed_agents.Runtime.Core.State.{
  PreparedOperation, PreparedTransition, SessionRuntime, require_session, exclusive,
}

-- the JSON of a planned operation without its key
unfoldable pub planned_json : PlannedOperation → Json
planned_json p = obj (
    field "provider" (str p.provider)
      (field "type" (str p.type) (field "version" (str p.version) (field "input" p.input end))))

unfoldable pub request_key : OperationRequest → String
request_key q = operation_key (record { provider = q.provider; type = q.type; version = q.version })

-- `String === null | String`
unfoldable pub same_job : String → Option String → Bool
same_job a none = false
same_job a (some b) = str_eq a b

unfoldable pub matches_pending : Option PendingOperation → String → Option String → Bool
matches_pending none provider job_id = false
matches_pending (some p) provider job_id = str_eq p.provider provider && same_job p.job_id job_id

-- a completion at the head must be that of a committed acceptance, or a rejected submission
unfoldable pub check_event : Event → List PendingOperation → Result (Unit {0})
check_event (external type payload) pending = ok tt
check_event (operation_completed id provider job_id outcome) pending =
    require
      (is_submission_failure outcome || matches_pending (find_pending id pending) provider job_id)
      (contract completion_conflict "Completion does not match its committed acceptance.")

module _ (sha256 : String → List ℕ) (info : SessionInfo) (sequence : ℕ)
    (declared : List String) where
  unfoldable pub prepare_operation : List String → PlannedOperation → Result PreparedOperation
  prepare_operation keys p = do
    id ← operation_id sha256 info.identity sequence p.key
    refuse (includes keys p.key) (error "Duplicate operation key in transition.")
    request ← parse_operation_request (planned_json p)
    require (includes declared (request_key request))
        (contract invalid_request "Harness has not declared this operation.")
    ok (record { key = p.key; operation_id = id; submission_id = id; request = request })

  unfoldable pub prepare_operations :
      List String → List PlannedOperation → Result (List PreparedOperation)
  prepare_operations keys [] = ok []
  prepare_operations keys (p ∷ rest) = prepare_operation keys p >>= λ first.
      prepare_operations (p.key ∷ keys) rest >>= λ others. ok (first ∷ others)

module _ {T C : Type 0} (sha256 : String → List ℕ) (h : HarnessDefinition T C) where
  -- What `createReadContext` adds to a context. Its SQL handle is left out: `handle` gets the tables.
  unfoldable pub read_context : SessionInfo → ℕ → ReadContext
  read_context info sequence = record {
    session = info;
    operation_id = operation_id sha256 info.identity sequence;
  }

  -- the transition that an input leads to
  unfoldable pub plan_input :
      ℕ → SessionInfo → List String → Envelope → Store T → Result (PreparedTransition C)
  plan_input reference info declared input store = do
    check_event input.event store.pending
    plan ← h.handle input (read_context info input.sequence) store.tables
    operations ← prepare_operations sha256 info input.sequence declared [] plan.operations
    ok (record {
      reference = reference;
      input = input;
      changes = plan.changes;
      operations = operations;
      status = plan.status;
    })

  unfoldable pub keep_prepared :
      Result (PreparedTransition C) → Exec (SessionRuntime T C) (Option (PreparedTransition C))
  keep_prepared (err e) r = (err e, r)
  keep_prepared (ok p) r =
      (ok (some p), record r { prepared = some p; prepared_count = r.prepared_count + 1 })

  unfoldable pub prepare_input :
      SessionInfo → Option Envelope → Exec (SessionRuntime T C) (Option (PreparedTransition C))
  prepare_input info none r = (ok none, r)
  prepare_input info (some input) r =
      keep_prepared (plan_input r.prepared_count info r.declared input r.store) r

  unfoldable pub prepare_unless :
      Option (PreparedTransition C)
      → SessionInfo
      → Exec (SessionRuntime T C) (Option (PreparedTransition C))
  prepare_unless (some p) info r = (ok (some p), r)
  prepare_unless none info r = prepare_input info (next_input r.store.inbox) r

  unfoldable pub prepare : Exec (SessionRuntime T C) (Option (PreparedTransition C))
  prepare r =
      let (found, r') = require_session r in
      continue found (λ info s. prepare_unless s.prepared info s) r'

  unfoldable pub prepare_next : Exec (SessionRuntime T C) (Option (PreparedTransition C))
  prepare_next = exclusive prepare
