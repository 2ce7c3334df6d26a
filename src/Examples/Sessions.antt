-- ===== src/Examples/Sessions.antt =====
-- Runs of the toy harness, and the theorems about sessions at them.
use managed_agents.Common.{
  ℕ, String, List, ◌≡◌, refl, true, ok, err, ◌++◌, All, false, contract, session_not_initialized,
  none, some, [], ◌∷◌, Result,
}
use managed_agents.Driver.State.{SessionDriver}
use managed_agents.Driver.Policy.{default_driver_policy}
use managed_agents.Driver.Drain.{drain, Round}
use managed_agents.Runtime.Replay.{committed, unchanged}
use managed_agents.Driver.Invariant.{drain-IsRuntime}
use managed_agents.Contracts.Json.{null, Json, obj, field, str, end}
use managed_agents.Contracts.Operation.{
  ProviderSubmitResult, completed as job_done, cancelled, OperationCompletion,
}
use managed_agents.Runtime.Event.{external}
use managed_agents.Runtime.Storage.{Store, Envelope}
use managed_agents.Runtime.Inbox.Queue.{waiting}
use managed_agents.Runtime.Coherence.{IsRuntime}
use managed_agents.Runtime.Growth.{commit_store-queue, IsCompletion}
use managed_agents.Runtime.Retry.{append_input-retry}
use managed_agents.Runtime.Calls.Failures.{thrown-store}
use managed_agents.Runtime.Calls.History.{
  empty_store, Reachable, opened, run-Reachable, Reachable-IsRuntime, prepared-is_head, Call,
  appended, initialized,
}
use managed_agents.Runtime.Core.State.{SessionRuntime, PreparedTransition, PreparedOperation}
use managed_agents.Runtime.Core.Admission.{InputReceipt}
use managed_agents.Examples.Toy.{
  toy, fresh, digest, history, info, initialize_body, input_body, plan_event,
}
use managed_agents.Contracts.Json.{
  get, size, count, json_equals, items_equal, fields_equal, quote, number_text, stringify,
  stringify_items, stringify_fields,
}
use managed_agents.Contracts.Operation.{
  assert_json_size, outcome_json, text_or_null, required, parse_operation_definition,
  parse_operation_request, parse_operation_failure, is_text, parse_operation_outcome,
  is_submission_failure, parse_job_outcome, parse_operation_completion,
  parse_provider_submit_result,
}
use managed_agents.Contracts.Session.{
  parse_initialize_session_request, event_body, parse_event_body, parse_submit_input_request,
}
use managed_agents.Contracts.Text.{
  utf8_bytes, concat, utf16_length, is_blank, includes, hex_digit, hex, decimal_onto, decimal,
}
use managed_agents.Contracts.Validation.{only_keys, record_of, nonempty_string, integer}
use managed_agents.Runtime.Calls.History.{perform, thrown, run}
use managed_agents.Runtime.Core.Admission.{
  is_reserved, event_of, repeated_input, validated_input, fresh_input, admit_known, admit_store,
  keep_admitted, admit_session, admit_input, append_input,
}
use managed_agents.Runtime.Core.Commit.{
  collect_receipts, close_operation, is_head, consume, commit_store, keep_committed, commit_session,
  is_current, all_receipts, commit_current, commit,
}
use managed_agents.Runtime.Core.Completion.{
  completion_event, receipt, unadmitted, derived_sequence, same_acceptance, provider_is,
  is_proposed, check_proposed, check_pending, check_known, check_identity, check_completion,
  insert_completion, keep_completion, commit_completion, accept_checked, accept_completion,
}
use managed_agents.Runtime.Core.Initialize.{
  same_identity, found_session, new_runtime, create_session, keep_created, initialize_found,
  initialize_checked, initialize,
}
use managed_agents.Runtime.Core.Insert.{timestamp, insert_next}
use managed_agents.Runtime.Core.Prepare.{
  planned_json, request_key, same_job, matches_pending, check_event, prepare_operation,
  prepare_operations, read_context, plan_input, keep_prepared, prepare_input, prepare_unless,
  prepare, prepare_next,
}
use managed_agents.Runtime.Core.Settle.{
  completion_event_id, lookup, queue_new, queue_known, queue_completion, accept_operation,
  settle_operation, settle_operations,
}
use managed_agents.Runtime.Core.State.{
  same_harness, check_harness, present, remember, load_stored, load_cached, load_session,
  require_session, release, exclusive, get_session,
}
use managed_agents.Runtime.Event.{
  event_type, event_payload, event_json, canonical, canonical_items, canonical_members, input_hash,
}
use managed_agents.Runtime.Identity.{
  identity_text, identity_prefix, operation_id, is_hex, read_sequence, read_positive, behind,
  operation_identity, operation_key, definition_keys,
}
use managed_agents.Runtime.Storage.{
  find_input, is_waiting, next_row, envelope, next_input, max_sequence, allocate_sequence,
  place_row, fits, new_row, row_bytes, insert_input, consumed_row, update_waiting, consume_input,
  find_pending, insert_pending, delete_pending, processing_status, reset_row, reset_processing,
  failed_row, fail_processing,
}

-- the toy session after some calls; what it unfolds, a proof that unfolds it unfolds too
unfoldable after : List (Call ℕ) → SessionRuntime ℕ ℕ
unfolding digest plan_event get size count json_equals items_equal fields_equal quote number_text
    stringify stringify_items stringify_fields assert_json_size outcome_json text_or_null required
    parse_operation_definition parse_operation_request parse_operation_failure is_text
    parse_operation_outcome is_submission_failure parse_job_outcome parse_operation_completion
    parse_provider_submit_result parse_initialize_session_request event_body parse_event_body
    parse_submit_input_request utf8_bytes concat utf16_length is_blank includes hex_digit hex
    decimal_onto decimal only_keys record_of nonempty_string integer perform thrown run is_reserved
    event_of repeated_input validated_input fresh_input admit_known admit_store keep_admitted
    admit_session admit_input append_input collect_receipts close_operation is_head consume
    commit_store keep_committed commit_session is_current all_receipts commit_current commit
    completion_event receipt unadmitted derived_sequence same_acceptance provider_is is_proposed
    check_proposed check_pending check_known check_identity check_completion insert_completion
    keep_completion commit_completion accept_checked accept_completion same_identity found_session
    new_runtime create_session keep_created initialize_found initialize_checked initialize timestamp
    insert_next planned_json request_key same_job matches_pending check_event prepare_operation
    prepare_operations read_context plan_input keep_prepared prepare_input prepare_unless prepare
    prepare_next completion_event_id lookup queue_new queue_known queue_completion accept_operation
    settle_operation settle_operations same_harness check_harness present remember load_stored
    load_cached load_session require_session release exclusive get_session event_type event_payload
    event_json canonical canonical_items canonical_members input_hash identity_text identity_prefix
    operation_id is_hex read_sequence read_positive behind operation_identity operation_key
    definition_keys find_input is_waiting next_row envelope next_input max_sequence
    allocate_sequence place_row fits new_row row_bytes insert_input consumed_row update_waiting
    consume_input find_pending insert_pending delete_pending processing_status reset_row
    reset_processing failed_row fail_processing
after calls = run digest toy calls fresh

fresh-opened : new_runtime toy (empty_store 0) ≡ ok fresh
unfolding after
fresh-opened = refl

after-Reachable : (calls : List (Call ℕ)) → Reachable digest toy (after calls)
unfolding after
after-Reachable calls = run-Reachable digest toy calls fresh (opened 0 fresh-opened)

Reachable-IsRuntime_example : IsRuntime (after history)
Reachable-IsRuntime_example =
    Reachable-IsRuntime digest toy (after history) (after-Reachable history)

abbrev first : PreparedTransition ℕ
first = record {
  reference = 0;
  input = record { event_id = "e1"; sequence = 1; received_at = 6; event = external "go" null };
  changes = 1;
  operations =
      record {
        key = "k";
        operation_id =
            "replay-v1:1:0707070707070707070707070707070707070707070707070707070707070707";
        submission_id =
            "replay-v1:1:0707070707070707070707070707070707070707070707070707070707070707";
        request = record { provider = "p"; type = "t"; version = "1"; input = null };
      }
      ∷ [];
  status = none;
}

after-prepared : (after history).prepared ≡ some first
unfolding after
after-prepared = refl

prepared-is_head_example : is_head (next_row (after history).store.inbox) "e1" ≡ true
prepared-is_head_example =
    prepared-is_head digest toy (after history) first (after-Reachable history) after-prepared

abbrev two_calls : List (Call ℕ)
two_calls = initialized 5 initialize_body ∷ []

abbrev first_receipt : InputReceipt
first_receipt = record {
  session_id = "s";
  event_id = "e1";
  sequence = 1;
  received_at = 6;
  duplicate = false;
}

input-appended :
    append_input digest toy 6 input_body (after two_calls)
    ≡ (ok first_receipt, (append_input digest toy 6 input_body (after two_calls)).1)
unfolding after
input-appended = refl

-- an input before the session is initialized
abbrev early : Call ℕ
early = appended 6 input_body

early-thrown :
    thrown digest toy early fresh
    ≡ some (contract session_not_initialized "Initialize the session first.")
unfolding after
early-thrown = refl

thrown-store_example : (perform digest toy early fresh).store ≡ fresh.store
thrown-store_example = thrown-store digest toy early fresh _ early-thrown

abbrev some_completion : OperationCompletion
some_completion = record {
  operation_id = "o";
  submission_id = "o";
  provider = "p";
  job_id = "j";
  outcome = cancelled;
}

abbrev answers : List (String × ProviderSubmitResult)
answers =
    (
      "replay-v1:1:0707070707070707070707070707070707070707070707070707070707070707",
      job_done "job" cancelled,
    )
    ∷ []

stored : Result (Store ℕ) → Store ℕ
stored (ok s) = s
stored (err e) = empty_store 0

unfoldable committed_state : Store ℕ
unfolding after stored
committed_state = stored (commit_store digest 8 toy info first answers (after history).store)

first-committed :
    commit_store digest 8 toy info first answers (after history).store ≡ ok committed_state
unfolding after committed_state
first-committed = refl

commit_store-queue_example :
    (input : Envelope) × (rest added : List Envelope) × (waiting (after history).store.inbox
      ≡ input ∷ rest)
    × (waiting committed_state.inbox ≡ rest ++ added)
    × (input.event_id ≡ "e1")
    × All (λ (e : Envelope). IsCompletion e.event) added
commit_store-queue_example =
    commit_store-queue digest 8 toy info first answers (after history).store committed_state
      (Reachable-IsRuntime digest toy (after history) (after-Reachable history)).store
      first-committed

abbrev admitting : SessionRuntime ℕ ℕ
admitting = (append_input digest toy 6 input_body (after two_calls)).1

-- the same session once its input is consumed
abbrev consumed_session : SessionRuntime ℕ ℕ
consumed_session = record admitting { store = committed_state }

admitted-committed :
    commit_store digest 8 toy info first answers admitting.store ≡ ok committed_state
unfolding after committed_state
admitted-committed = refl

admitting-idle : consumed_session.busy ≡ false
unfolding after
admitting-idle = refl

append_input-retry_example :
    append_input digest toy 9 input_body consumed_session
    ≡ (ok (record first_receipt { duplicate = true }), consumed_session)
append_input-retry_example =
    append_input-retry digest toy 6 9 input_body (after two_calls) admitting consumed_session
      first_receipt (Reachable-IsRuntime digest toy (after two_calls) (after-Reachable two_calls))
      input-appended admitting-idle refl
      (committed 8 info first answers admitted-committed unchanged)

-- the toy session in a driver, whose providers accept what they get
abbrev driven : SessionDriver ℕ ℕ
driven = record { runtime = after history; alarm = none; receipt_input = none; receipts = [] }

accepting : PreparedOperation → Result Json
accepting op = ok (obj (field "status" (str "accepted") (field "jobId" (str "j") end)))

abbrev rounds : List (Round ℕ)
rounds =
    record { tested = 20; now = 20; provider = accepting; between = early ∷ [] }
    ∷ record { tested = 21; now = 21; provider = accepting; between = [] }
    ∷ []

drain-IsRuntime_example :
    IsRuntime
      (drain digest toy
        (λ e. "Error: no")
        0
        default_driver_policy
        false
        19
        19
        30
        rounds
        driven).runtime
drain-IsRuntime_example =
    drain-IsRuntime digest toy (λ e. "Error: no") 0 default_driver_policy false 19 19 30 rounds
      driven (Reachable-IsRuntime digest toy (after history) (after-Reachable history))
