-- ===== src/Contracts/Operation.antt =====
-- packages/contracts/src/operation.ts: operations, their outcomes and the validators at the
-- boundary. Each validator takes the JSON that `parseJsonValue` has accepted.
use managed_agents.Common.{
  ℕ, String, Bool, true, false, Option, none, some, [], ◌∷◌, str_eq, leb, if◌then◌else◌, Result, ok,
  err, ◌>>=◌, ◌>>◌, require, refuse, contract, invalid_request,
}
use managed_agents.Contracts.Text.{concat, decimal, utf8_bytes}
use managed_agents.Contracts.Json.{Json, null, str, obj, Fields, end, field, get, stringify}
use managed_agents.Contracts.Validation.{defined, record_of, nonempty_string}

abbrev pub max_operation_input_bytes : ℕ
max_operation_input_bytes = 8388608

abbrev pub max_operation_outcome_bytes : ℕ
max_operation_outcome_bytes = 1900000

unfoldable pub assert_json_size : Json → ℕ → Result (Unit {0})
assert_json_size value maximum =
    require (leb (utf8_bytes (stringify value)) maximum) (
      contract invalid_request
        (concat ("JSON payload exceeds " ∷ decimal maximum ∷ " bytes." ∷ [])))

pub record OperationDefinition : Type 0 where
  pub provider : String
  pub type : String
  pub version : String

pub record OperationRequest : Type 0 where
  pub provider : String
  pub type : String
  pub version : String
  pub input : Json

pub record OperationFailure : Type 0 where
  pub code : String
  pub message : String
  pub details : Option Json

pub data Origin : Type 0 where
  submission execution : Origin

pub data OperationOutcome : Type 0 where
  succeeded : Json → OperationOutcome
  failed : Origin → OperationFailure → OperationOutcome
  cancelled : OperationOutcome

pub data ProviderSubmitResult : Type 0 where
  accepted : String → ProviderSubmitResult
  completed : String → OperationOutcome → ProviderSubmitResult
  rejected : OperationFailure → ProviderSubmitResult

pub record OperationCompletion : Type 0 where
  pub operation_id : String
  pub submission_id : String
  pub provider : String
  pub job_id : String
  pub outcome : OperationOutcome

-- The JSON that these values are, with the properties in the order in which the code builds them.
failure_fields : OperationFailure → Fields
failure_fields f = field "code" (str f.code) (
    field "message" (str f.message)
      (elim f.details [ none ↦ end | some d ↦ field "details" d end ]))

origin_text : Origin → String
origin_text submission = "submission"
origin_text execution = "execution"

unfoldable pub outcome_json : OperationOutcome → Json
unfolding failure_fields origin_text
outcome_json (succeeded result) = obj (field "status" (str "succeeded") (field "result" result end))
outcome_json (failed origin e) = obj (
    field "status" (str "failed")
      (field "origin" (str (origin_text origin)) (field "error" (obj (failure_fields e)) end)))
outcome_json cancelled = obj (field "status" (str "cancelled") end)

unfoldable pub text_or_null : Option String → Json
text_or_null none = null
text_or_null (some s) = str s

unfoldable pub required : Option Json → String → Result Json
required (some v) path = ok v
required none path = err (contract invalid_request (concat (path ∷ " is required." ∷ [])))

definition_of : Fields → Result OperationDefinition
definition_of r = do
  provider ← nonempty_string (get "provider" r) "provider" invalid_request
  type ← nonempty_string (get "type" r) "type" invalid_request
  version ← nonempty_string (get "version" r) "version" invalid_request
  ok (record { provider = provider; type = type; version = version })

unfoldable pub parse_operation_definition : Json → Result OperationDefinition
unfolding definition_of
parse_operation_definition value = do
  r ←
      record_of (some value) ("provider" ∷ "type" ∷ "version" ∷ []) "operation definition"
        invalid_request
  definition_of r

unfoldable pub parse_operation_request : Json → Result OperationRequest
unfolding definition_of
parse_operation_request value = do
  r ←
      record_of (some value) ("provider" ∷ "type" ∷ "version" ∷ "input" ∷ []) "operation"
        invalid_request
  input ← required (get "input" r) "input"
  assert_json_size input max_operation_input_bytes
  d ← definition_of r
  ok (record { provider = d.provider; type = d.type; version = d.version; input = input })

unfoldable pub parse_operation_failure : Option Json → Result OperationFailure
parse_operation_failure value = do
  r ← record_of value ("code" ∷ "message" ∷ "details" ∷ []) "error" invalid_request
  code ← nonempty_string (get "code" r) "error.code" invalid_request
  message ← nonempty_string (get "message" r) "error.message" invalid_request
  ok (record { code = code; message = message; details = get "details" r })

-- `r.key === text`
unfoldable pub is_text : Option Json → String → Bool
is_text (some (str s)) t = str_eq s t
is_text _ t = false

invalid_outcome : Result OperationOutcome
invalid_outcome = err (contract invalid_request "Invalid operation outcome.")

succeeded_outcome : Json → Fields → Result OperationOutcome
succeeded_outcome json r = do
  record_of (some json) ("status" ∷ "result" ∷ []) "outcome" invalid_request
  result ← required (get "result" r) "result"
  ok (succeeded result)

failed_by : Origin → Fields → Result OperationOutcome
failed_by origin r = do e ← parse_operation_failure (get "error" r); ok (failed origin e)

failed_outcome : Json → Fields → Result OperationOutcome
unfolding invalid_outcome failed_by
failed_outcome json r =
    record_of (some json) ("status" ∷ "origin" ∷ "error" ∷ []) "outcome" invalid_request
    >> (if is_text (get "origin" r) "submission"
        then failed_by submission r
        else if is_text (get "origin" r) "execution"
        then failed_by execution r
        else invalid_outcome)

cancelled_outcome : Json → Result OperationOutcome
cancelled_outcome json = do
  record_of (some json) ("status" ∷ []) "outcome" invalid_request
  ok cancelled

-- the `switch` on the status
outcome_of : Json → Fields → Result OperationOutcome
unfolding succeeded_outcome failed_outcome cancelled_outcome invalid_outcome
outcome_of json r =
    if is_text (get "status" r) "succeeded"
    then succeeded_outcome json r
    else if is_text (get "status" r) "failed"
    then failed_outcome json r
    else if is_text (get "status" r) "cancelled"
    then cancelled_outcome json
    else invalid_outcome

unfoldable pub parse_operation_outcome : Json → Result OperationOutcome
unfolding outcome_of
parse_operation_outcome json = do
  assert_json_size json max_operation_outcome_bytes
  r ←
      record_of (some json) ("status" ∷ "result" ∷ "origin" ∷ "error" ∷ []) "outcome"
        invalid_request
  outcome_of json r

unfoldable pub is_submission_failure : OperationOutcome → Bool
is_submission_failure (failed submission e) = true
is_submission_failure _ = false

-- An accepted job cannot report that its submission was rejected. An absent outcome is refused by
-- `parseJsonValue`.
unfoldable pub parse_job_outcome : Option Json → Result OperationOutcome
parse_job_outcome none = err (contract invalid_request "Expected a JSON-compatible value.")
parse_job_outcome (some value) = do
  outcome ← parse_operation_outcome value
  refuse (is_submission_failure outcome) (
      contract invalid_request
        "An accepted provider job cannot report submission rejection as its outcome.")
  ok outcome

unfoldable pub parse_operation_completion : Json → Result OperationCompletion
parse_operation_completion value = do
  r ←
      record_of (some value)
        ("operationId" ∷ "submissionId" ∷ "provider" ∷ "jobId" ∷ "outcome" ∷ []) "completion"
        invalid_request
  operation_id ← nonempty_string (get "operationId" r) "operationId" invalid_request
  submission_id ← nonempty_string (get "submissionId" r) "submissionId" invalid_request
  provider ← nonempty_string (get "provider" r) "provider" invalid_request
  job_id ← nonempty_string (get "jobId" r) "jobId" invalid_request
  outcome ← parse_job_outcome (get "outcome" r)
  ok (record {
    operation_id = operation_id;
    submission_id = submission_id;
    provider = provider;
    job_id = job_id;
    outcome = outcome;
  })

accepted_result : Json → Fields → Result ProviderSubmitResult
accepted_result json r = do
  record_of (some json) ("status" ∷ "jobId" ∷ []) "submission result" invalid_request
  job_id ← nonempty_string (get "jobId" r) "jobId" invalid_request
  ok (accepted job_id)

completed_result : Json → Fields → Result ProviderSubmitResult
completed_result json r = do
  record_of (some json) ("status" ∷ "jobId" ∷ "outcome" ∷ []) "submission result" invalid_request
  job_id ← nonempty_string (get "jobId" r) "jobId" invalid_request
  outcome ← parse_job_outcome (get "outcome" r)
  ok (completed job_id outcome)

rejected_result : Json → Fields → Result ProviderSubmitResult
rejected_result json r = do
  record_of (some json) ("status" ∷ "error" ∷ []) "submission result" invalid_request
  e ← parse_operation_failure (get "error" r)
  ok (rejected e)

submit_result_of : Json → Fields → Result ProviderSubmitResult
unfolding accepted_result completed_result rejected_result
submit_result_of json r =
    if is_text (get "status" r) "accepted"
    then accepted_result json r
    else if is_text (get "status" r) "completed"
    then completed_result json r
    else if is_text (get "status" r) "rejected"
    then rejected_result json r
    else err (contract invalid_request "Invalid provider submission result.")

unfoldable pub parse_provider_submit_result : Json → Result ProviderSubmitResult
unfolding submit_result_of
parse_provider_submit_result json = do
  r ←
      record_of (some json) ("status" ∷ "jobId" ∷ "outcome" ∷ "error" ∷ []) "submission result"
        invalid_request
  submit_result_of json r

-- what a provider is given
pub record ProviderSubmission : Type 0 where
  pub operation_id : String
  pub submission_id : String
  pub request : OperationRequest

unfoldable pub parse_provider_submission : Option Json → Result ProviderSubmission
parse_provider_submission value = do
  json ← defined value
  r ←
      record_of (some json) ("operationId" ∷ "submissionId" ∷ "request" ∷ []) "submission"
        invalid_request
  operation_id ← nonempty_string (get "operationId" r) "operationId" invalid_request
  submission_id ← nonempty_string (get "submissionId" r) "submissionId" invalid_request
  value ← defined (get "request" r)
  request ← parse_operation_request value
  ok (record { operation_id = operation_id; submission_id = submission_id; request = request })
