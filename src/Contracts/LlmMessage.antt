-- ===== src/Contracts/LlmMessage.antt =====
-- Messages, tools, inputs and responses of packages/contracts/src/llm.ts.
use managed_agents.Common.{
  String, Bool, true, false, not, ◌&&◌, ◌||◌, Option, none, some, is_some, List, [], ◌∷◌, ◌++◌, ltb,
  if◌then◌else◌, starts_with, Result, ok, ◌>>=◌, ◌>>◌, require, refuse, contract, invalid_request,
}
use managed_agents.Contracts.Text.{utf16_length, includes}
use managed_agents.Contracts.Json.{Json, null, bool, num, obj, Fields, end, get, whole, fraction}
use managed_agents.Contracts.Validation.{record_of, nonempty_string}
use managed_agents.Contracts.Operation.{is_text, ProviderSubmission, parse_provider_submission}
use managed_agents.Contracts.Llm.{
  invalid, object, string, parse_uuid, array, if_present, optional_string, metadata, map_items,
  content, tool_outcome,
}

abbrev base : List String
base = "id" ∷ "timestamp" ∷ "metadata" ∷ "role" ∷ []

-- `typeof value === "number"`
abbrev is_number : Option Json → Bool
is_number (some (num n)) = true
is_number _ = false

-- a number that is not below 0
abbrev is_nonnegative : Option Json → Bool
is_nonnegative (some (num (whole n))) = true
is_nonnegative (some (num (fraction text))) = not (starts_with text "-")
is_nonnegative _ = false

unfoldable pub written_message : Fields → Bool → Result (Unit {0})
written_message m images =
    record_of (some (obj m)) (base ++ "content" ∷ []) "message" invalid_request
    >> content (get "content" m) images

unfoldable pub assistant_message : Fields → Result (Unit {0})
assistant_message m = do
  record_of (some (obj m)) (base ++ "provider" ∷ "content" ∷ []) "assistant" invalid_request
  provider ← string (get "provider" m)
  require (includes ("openai" ∷ "chatgpt" ∷ "fireworks" ∷ []) provider)
      (contract invalid_request "Invalid assistant provider.")
  array (get "content" m)
  ok tt

unfoldable pub tool_result_message : Fields → Result (Unit {0})
tool_result_message m = do
  record_of (some (obj m))
      (base ++ "toolName" ∷ "toolCallId" ∷ "content" ∷ "outcome" ∷ "details" ∷ []) "tool result"
      invalid_request
  string (get "toolName" m)
  string (get "toolCallId" m)
  content (get "content" m) true
  outcome ← object (get "outcome" m)
  tool_outcome outcome

unfoldable pub custom_message : Fields → Result (Unit {0})
custom_message m = do
  record_of (some (obj m)) (base ++ "tag" ∷ "data" ∷ []) "custom message" invalid_request
  string (get "tag" m)
  require (is_some (get "data" m)) (contract invalid_request "Custom data is required.")

-- the `switch` on the role
unfoldable pub by_role : Fields → Result (Unit {0})
by_role m =
    if is_text (get "role" m) "user"
    then written_message m true
    else if is_text (get "role" m) "system"
    then written_message m false
    else if is_text (get "role" m) "assistant"
    then assistant_message m
    else if is_text (get "role" m) "tool_result"
    then tool_result_message m
    else if is_text (get "role" m) "custom"
    then custom_message m
    else invalid "Unsupported message role."

unfoldable pub message : Option Json → Result Fields
message value = do
  m ← object value
  optional_string m "id"
  metadata m
  refuse (is_some (get "timestamp" m) && not (is_number (get "timestamp" m)))
      (contract invalid_request "Invalid message timestamp.")
  by_role m
  ok m

unfoldable pub parse_llm_message : Json → Result Fields
parse_llm_message value = message (some value)

abbrev is_boolean : Option Json → Bool
is_boolean (some (bool b)) = true
is_boolean _ = false

unfoldable pub function_tool : Fields → Result (Unit {0})
function_tool t = do
  record_of (some (obj t))
      ("type" ∷ "name" ∷ "description" ∷ "parameters" ∷ "outputSchema" ∷ "strict" ∷ [])
      "function tool" invalid_request
  object (get "parameters" t)
  if_present (get "outputSchema" t) object
  refuse (is_some (get "strict" t) && not (is_boolean (get "strict" t)))
      (contract invalid_request "Invalid tool strict flag.")

unfoldable pub custom_tool : Fields → Result (Unit {0})
custom_tool t = do
  record_of (some (obj t)) ("type" ∷ "name" ∷ "description" ∷ "format" ∷ []) "custom tool"
      invalid_request
  format ← record_of (get "format" t) ("syntax" ∷ "definition" ∷ []) "tool format" invalid_request
  require (is_text (get "syntax" format) "lark")
      (contract invalid_request "Unsupported grammar syntax.")
  string (get "definition" format)
  ok tt

unfoldable pub by_type : Fields → Result (Unit {0})
by_type t =
    if is_text (get "type" t) "function"
    then function_tool t
    else if is_text (get "type" t) "custom"
    then custom_tool t
    else invalid "Unsupported tool type."

unfoldable pub tool : Json → Result Fields
tool value = do
  t ← object (some value)
  string (get "name" t)
  string (get "description" t)
  by_type t
  ok t

pub data LlmInput : Type 0 where
  started :
      (account_id model_id : String) (instructions : Option Json) (messages tools : List Fields)
      (provider_options : Fields)
      → LlmInput
  continued : (previous_job_id : String) (messages : List Fields) → LlmInput

unfoldable pub continued_input : Fields → Json → List Fields → Result LlmInput
continued_input r previous messages = do
  record_of (some (obj r)) ("previousJobId" ∷ "messages" ∷ []) "continuation" invalid_request
  id ← parse_uuid (some previous)
  ok (continued id messages)

unfoldable pub tools_of : Option Json → Result (List Fields)
tools_of none = ok []
tools_of (some value) = array (some value) >>= map_items tool

unfoldable pub options_of : Option Json → Result Fields
options_of none = ok end
options_of (some value) = object (some value)

unfoldable pub started_input : Fields → List Fields → Result LlmInput
started_input r messages = do
  record_of (some (obj r))
      ("previousJobId" ∷ "accountId" ∷ "modelId" ∷ "instructions" ∷ "messages" ∷ "tools"
        ∷ "providerOptions" ∷ [])
      "LLM input" invalid_request
  model_id ← nonempty_string (get "modelId" r) "modelId" invalid_request
  refuse (ltb 300 (utf16_length model_id)) (contract invalid_request "Model ID is too long.")
  optional_string r "instructions"
  account_id ← parse_uuid (get "accountId" r)
  tools ← tools_of (get "tools" r)
  options ← options_of (get "providerOptions" r)
  ok (started account_id model_id (get "instructions" r) messages tools options)

-- an absent previous job, or `null`
unfoldable pub input_after : Option Json → Fields → List Fields → Result LlmInput
input_after none r messages = started_input r messages
input_after (some null) r messages = started_input r messages
input_after (some previous) r messages = continued_input r previous messages

unfoldable pub parse_llm_input : Json → Result LlmInput
parse_llm_input value = do
  r ← object (some value)
  items ← array (get "messages" r)
  messages ← map_items (λ v. message (some v)) items
  input_after (get "previousJobId" r) r messages

pub record SessionDestination : Type 0 where
  pub route_key : String
  pub session_id : String

pub record LlmSubmission : Type 0 where
  pub destination : SessionDestination
  pub submission : ProviderSubmission

-- the identifiers that route an answer
unfoldable pub short_ids : SessionDestination → ProviderSubmission → Result (Unit {0})
short_ids d s =
    refuse
      (ltb 2048 (utf16_length d.route_key)
        || ltb 2048 (utf16_length d.session_id)
        || ltb 2048 (utf16_length s.operation_id)
        || ltb 2048 (utf16_length s.submission_id))
      (contract invalid_request "Operation routing identifier is too long.")

unfoldable pub parse_llm_submission : Json → Result LlmSubmission
parse_llm_submission value = do
  r ← record_of (some value) ("destination" ∷ "submission" ∷ []) "LLM submission" invalid_request
  d ← record_of (get "destination" r) ("routeKey" ∷ "sessionId" ∷ []) "destination" invalid_request
  route_key ← nonempty_string (get "routeKey" d) "routeKey" invalid_request
  session_id ← nonempty_string (get "sessionId" d) "sessionId" invalid_request
  submission ← parse_provider_submission (get "submission" r)
  let destination : SessionDestination = record { route_key = route_key; session_id = session_id }
  short_ids destination submission
  ok (record { destination = destination; submission = submission })

unfoldable pub count_of : Fields → String → Result (Unit {0})
count_of value name =
    refuse (is_some (get name value) && not (is_nonnegative (get name value)))
      (contract invalid_request "Invalid usage count/cost.")

unfoldable pub counts : Fields → Result (Unit {0})
counts value =
    count_of value "input"
    >> count_of value "output"
    >> count_of value "cacheRead"
    >> count_of value "cacheWrite"

unfoldable pub cost_of : Option Json → Result (Unit {0})
cost_of value = do
  cost ← object value
  counts cost
  require (is_nonnegative (get "total" cost)) (contract invalid_request "Invalid usage cost total.")

unfoldable pub usage_of : Option Json → Result (Unit {0})
usage_of value = do usage ← object value; counts usage; if_present (get "cost" usage) cost_of

unfoldable pub stop_reasons : List String
stop_reasons = "stop" ∷ "length" ∷ "tool_use" ∷ "refusal" ∷ "content_filter" ∷ "pause_turn" ∷ []

unfoldable pub parse_llm_response : Json → Result Fields
parse_llm_response value = do
  r ← object (some value)
  nonempty_string (get "id" r) "response.id" invalid_request
  nonempty_string (get "modelId" r) "response.modelId" invalid_request
  optional_string r "resolvedModelId"
  m ← message (get "message" r)
  require (is_text (get "role" m) "assistant")
      (contract invalid_request "Expected an assistant response.")
  reason ← string (get "stopReason" r)
  require (includes stop_reasons reason) (contract invalid_request "Invalid stop reason.")
  require (is_nonnegative (get "durationMs" r) && is_nonnegative (get "timestamp" r))
      (contract invalid_request "Invalid response timing.")
  if_present (get "usage" r) usage_of
  ok r
