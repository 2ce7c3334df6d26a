-- ===== src/Pi/Response.antt =====
-- What `completeLlm` and `completeTool` of packages/harness-pi-no-compaction/src/harness.ts read in the
-- outcome of an operation.
use managed_agents.Common.{
  String, Bool, true, false, not, ◌&&◌, ◌||◌, Option, none, some, if◌then◌else◌, List, [], ◌∷◌,
  ◌==◌, str_eq, Result, ok, err, ◌>>=◌, ◌>>◌, require, refuse, harness_failure, error, message_of,
}
use managed_agents.Contracts.Text.{concat}
use managed_agents.Contracts.Json.{
  Json, null, bool, str, arr, obj, Items, nil, cons, Fields, end, field, get, count,
}
use managed_agents.Contracts.Validation.{defined}
use managed_agents.Contracts.Operation.{
  OperationOutcome, succeeded, failed, cancelled, is_text, text_or_null,
}
use managed_agents.Contracts.LlmMessage.{parse_llm_message, parse_llm_response}
use managed_agents.Pi.Config.{PiConfig, provider_text}
use managed_agents.Pi.Tools.{ToolCall, ToolName, read, bash, tool_text}
use managed_agents.Pi.Calls.{tool_calls}
use managed_agents.Pi.Tables.{PiError}
use managed_agents.Pi.Work.{
  assert_message_size, first_units, tool_message, error_outcome, error_result,
}

-- `{ ...fields, key: value }`
unfoldable pub assign : String → Json → Fields → Fields
assign key value end = field key value end
assign key value (field k v rest) =
    if str_eq k key then field k value rest else field k v (assign key value rest)

-- `const { key, ...rest } = fields`
unfoldable pub without : String → Fields → Fields
without key end = end
without key (field k v rest) = if str_eq k key then rest else field k v (without key rest)

pub record LlmResult : Type 0 where
  pub response : Fields
  pub gateway_job_id : String

unfoldable pub gateway_fields : Json → Result (String × Fields)
gateway_fields (obj value) = elim (get "gatewayJobId" value) [
  | some (str id) ↦ ok (id, value)
  | _ ↦ err (error "Expected a gateway response.")
]
gateway_fields _ = err (error "Expected a gateway response.")

unfoldable pub gateway_result : Json → Result LlmResult
gateway_result value = do
  gateway ← gateway_fields value
  response ← defined (get "response" gateway.1)
  parsed ← parse_llm_response response
  ok (record { response = parsed; gateway_job_id = gateway.0 })

-- `catch (error)`
unfoldable pub as_response {ℓ} : {A : Type ℓ} → Result A → Result A
as_response (ok a) = ok a
as_response (err e) = err (harness_failure "INVALID_LLM_RESPONSE" (message_of e))

unfoldable pub llm_result : OperationOutcome → Result LlmResult
llm_result (succeeded value) = as_response (gateway_result value)
llm_result (failed origin e) = err (harness_failure "LLM_FAILED" e.message)
llm_result cancelled = err (harness_failure "LLM_FAILED" "LLM operation was cancelled upstream.")

-- the message of a response that was validated
unfoldable pub message_fields_of : Option Json → Fields
message_fields_of (some (obj message)) = message
message_fields_of _ = end

unfoldable pub message_of_result : LlmResult → Fields
message_of_result result = message_fields_of (get "message" result.response)

unfoldable pub metadata_of_result : LlmResult → Json
metadata_of_result result =
    obj (assign "gatewayJobId" (str result.gateway_job_id) (without "message" result.response))

unfoldable pub is_incomplete : Option Json → Bool
is_incomplete reason =
    is_text reason "length" || is_text reason "content_filter" || is_text reason "pause_turn"

unfoldable pub text_or_empty : Option Json → String
text_or_empty (some (str s)) = s
text_or_empty _ = ""

unfoldable pub is_empty : List ToolCall → Bool
is_empty [] = true
is_empty (call ∷ calls) = false

-- what is checked after the response was appended, with the calls of the message
unfoldable pub checked_calls : PiConfig → LlmResult → Result (List ToolCall)
checked_calls config result = do
  let message = message_of_result result
  let reason = get "stopReason" result.response
  require
      (is_text (get "provider" message) (provider_text config.provider)
        && is_text (get "modelId" result.response) config.model_id)
      (harness_failure "LLM_MODEL_MISMATCH"
        "Response does not match the configured provider/model.")
  refuse (is_incomplete reason) (
      harness_failure "LLM_INCOMPLETE" (
        concat (
          "Model stopped with "
          ∷ text_or_empty reason
          ∷ "; no tool calls were executed. The response is retained outside model context."
          ∷ [])))
  calls ← tool_calls message
  refuse (if is_text reason "tool_use" then is_empty calls else not (is_empty calls))
      (harness_failure "INVALID_LLM_RESPONSE" "Tool calls and stop reason disagree.")
  ok calls

-- the message that a tool's outcome leaves, and the failure of the run that it means
pub record ToolCompletion : Type 0 where
  pub message : Json
  pub failure : Option PiError

abbrev pub is_text_part : Json → Bool
is_text_part (obj part) = is_text (get "type" part) "text"
is_text_part _ = false

unfoldable pub all_text : Items → Bool
all_text nil = true
all_text (cons part rest) = is_text_part part && all_text rest

abbrev pub is_read : ToolName → Bool
is_read read = true
is_read _ = false

abbrev pub is_bash : ToolName → Bool
is_bash bash = true
is_bash _ = false

pub record ToolResult : Type 0 where
  pub is_error : Bool
  pub content : Items
  pub details : Fields

unfoldable pub result_parts : Option Json → Option Json → Option Json → Result ToolResult
result_parts (some (bool is_error)) (some (arr content)) (some (obj details)) = do
  refuse (count content == 0) (error "Malformed tool result.")
  ok (record { is_error = is_error; content = content; details = details })
result_parts _ _ _ = err (error "Malformed tool result.")

unfoldable pub tool_result : Json → Result ToolResult
tool_result (obj result) =
    result_parts (get "isError" result) (get "content" result) (get "details" result)
tool_result _ = err (error "Malformed tool result.")

unfoldable pub outcome_of_result : ToolCall → ToolResult → Json
outcome_of_result call result =
    if result.is_error
    then error_outcome (concat (tool_text call.name ∷ " failed; see tool output." ∷ []))
    else obj (field "status" (str "success") end)

abbrev lost_execution : PiError
lost_execution = record {
  code = "BASH_EXECUTION_UNKNOWN";
  message = "Execution outcome is unknown. Inspect the machine before resuming.";
}

unfoldable pub lost_failure : ToolCall → Fields → Option PiError
lost_failure call details =
    if is_bash call.name && is_text (get "reason" details) "lost" then some lost_execution else none

-- the body of the `try`
unfoldable pub tool_completion :
    Option String → ToolCall → Option String → Json → Result ToolCompletion
tool_completion run_id call operation_id value = do
  result ← tool_result value
  require (is_read call.name || all_text result.content) (error "Unexpected non-text tool result.")
  message ←
      parse_llm_message (
        tool_message call (arr result.content) (obj result.details) (outcome_of_result call result))
  assert_message_size
      (obj message ∷ null ∷ text_or_null run_id ∷ null ∷ text_or_null operation_id ∷ [])
  ok (record { message = obj message; failure = lost_failure call result.details })

abbrev outcome_unknown : Json
outcome_unknown = obj (field "outcomeUnknown" (bool true) end)

unfoldable pub failed_tool : ToolCall → PiError → ToolCompletion
failed_tool call failure = record {
  message = error_result call failure.message outcome_unknown;
  failure = some failure;
}

abbrev invalid_result : PiError
invalid_result = record {
  code = "INVALID_TOOL_RESULT";
  message =
      "Tool result could not be retained or validated. Execution may have occurred; inspect the machine before resuming.";
}

-- `catch (error)`
unfoldable pub retained : ToolCall → Result ToolCompletion → ToolCompletion
retained call (ok completion) = completion
retained call (err e) = failed_tool call invalid_result

unfoldable pub tool_outcome :
    Option String → ToolCall → Option String → OperationOutcome → ToolCompletion
tool_outcome run_id call operation_id (succeeded value) =
    retained call (tool_completion run_id call operation_id value)
tool_outcome run_id call operation_id (failed origin e) =
    failed_tool call (record { code = e.code; message = first_units 16384 e.message })
tool_outcome run_id call operation_id cancelled =
    failed_tool call
      (record { code = "TOOL_CANCELLED"; message = "Tool operation was cancelled upstream." })
