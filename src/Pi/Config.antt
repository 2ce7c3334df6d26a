-- ===== src/Pi/Config.antt =====
-- packages/harness-pi-no-compaction/src/contracts.ts: the configuration of a session and the inputs
-- that it admits. `parse_url` is the platform's `URL`.
use managed_agents.Common.{
  ℕ, String, Bool, false, not, ◌&&◌, Option, none, some, if◌then◌else◌, List, [], ◌∷◌, leb, ◌==◌,
  str_eq, get_elem?, Result, ok, err, ◌>>=◌, ◌>>◌, require, Failure, contract, error,
  invalid_config, invalid_input, message_of,
}
use managed_agents.Contracts.Text.{utf8_bytes, concat, utf16_length, is_blank, includes, decimal}
use managed_agents.Contracts.Json.{
  Json, num, str, arr, obj, Fields, end, field, get, count, stringify, whole,
}
use managed_agents.Contracts.Validation.{max_safe_integer, only_keys, defined}
use managed_agents.Contracts.Session.{HarnessIdentity, EventBody, parse_event_body}
use managed_agents.Contracts.Operation.{is_text}
use managed_agents.Contracts.Llm.{parse_uuid}
use managed_agents.Contracts.LlmMessage.{parse_llm_message}
use managed_agents.Contracts.Pattern.{is_absolute_machine_path}
use managed_agents.Contracts.ToolExecution.{
  Url, split_dots, parse_execution_token, parse_execution_gateway_url,
}

abbrev pub pi_identity : HarnessIdentity
pi_identity = record { id = "pi-no-compaction"; version = "v1" }

pub data Provider : Type 0 where
  openai fireworks : Provider

unfoldable pub provider_text : Provider → String
provider_text openai = "openai"
provider_text fireworks = "fireworks"

unfoldable pub reasoning_levels : List String
reasoning_levels = "low" ∷ "medium" ∷ "high" ∷ "xhigh" ∷ "max" ∷ []

-- `OPENAI_MODELS` and `FIREWORKS_MODELS`: the largest output of a model of the catalog
unfoldable pub max_tokens : Provider → String → Option ℕ
max_tokens openai model =
    if includes ("gpt-6-astra" ∷ "gpt-5.6-sol" ∷ "gpt-5.6-terra" ∷ "gpt-5.6-luna" ∷ []) model
    then some 128000
    else none
max_tokens fireworks model =
    if includes
      ("accounts/fireworks/models/glm-5p3-flash" ∷ "accounts/fireworks/models/kimi-k3" ∷ []) model
    then some 1048576
    else if str_eq model "accounts/fireworks/models/deepseek-v4p1-flash"
    then some 393216
    else none

pub record PiConfig : Type 0 where
  pub provider : Provider
  pub model_id : String
  pub account_id : String
  pub reasoning : String
  pub machine_id : String
  pub execution_token : String
  pub execution_gateway_url : String
  pub cwd : String
  pub max_output_tokens : ℕ

-- the object that the parser returns
unfoldable pub config_json : PiConfig → Json
config_json c = obj (
    field "provider" (str (provider_text c.provider)) (
      field "modelId" (str c.model_id) (
        field "accountId" (str c.account_id) (
          field "reasoning" (str c.reasoning) (
            field "machineId" (str c.machine_id) (
              field "executionToken" (str c.execution_token) (
                field "executionGatewayUrl" (str c.execution_gateway_url) (
                  field "cwd" (str c.cwd)
                    (field "maxOutputTokens" (num (whole c.max_output_tokens)) end)))))))))

unfoldable pub object_of : Json → List String → Result Fields
object_of (obj r) keys =
    require (only_keys keys r) (error "Unexpected fields or non-object value.") >> ok r
object_of _ keys = err (error "Unexpected fields or non-object value.")

-- an object of no other fields
unfoldable pub fields_of : Option Json → List String → Result Fields
fields_of value keys = defined value >>= λ json. object_of json keys

unfoldable pub provider_of : Option Json → Result Provider
provider_of value =
    if is_text value "openai"
    then ok openai
    else if is_text value "fireworks"
    then ok fireworks
    else err (error "provider must be openai or fireworks.")

-- a model of the catalog, with its largest output
unfoldable pub model_of : Provider → Option Json → Result (String × ℕ)
model_of p (some (str model)) = elim (max_tokens p model) [
  | none ↦ err (error "modelId must belong to the selected provider's vision-capable catalog.")
  | some max ↦ ok (model, max)
]
model_of p _ = err (error "modelId must belong to the selected provider's vision-capable catalog.")

unfoldable pub reasoning_of : Option Json → Result String
reasoning_of none = ok "medium"
reasoning_of (some (str level)) =
    require (includes reasoning_levels level)
      (error "reasoning must be low, medium, high, xhigh or max.")
    >> ok level
reasoning_of _ = err (error "reasoning must be low, medium, high, xhigh or max.")

unfoldable pub cwd_of : Option Json → Result String
cwd_of (some (str cwd)) =
    require (not (str_eq cwd "") && leb (utf16_length cwd) 8192 && is_absolute_machine_path cwd)
      (error "cwd must be an absolute machine path.")
    >> ok cwd
cwd_of _ = err (error "cwd must be an absolute machine path.")

abbrev bad_output : ℕ → Failure
bad_output max =
    error (concat ("maxOutputTokens must be an integer between 1 and " ∷ decimal max ∷ "." ∷ []))

unfoldable pub output_of : Provider → ℕ → Option Json → Result ℕ
output_of openai max none = require (leb 128000 max) (bad_output max) >> ok 128000
output_of fireworks max none = require (leb 32768 max) (bad_output max) >> ok 32768
output_of p max (some (num (whole n))) =
    require (leb n max_safe_integer && leb 1 n && leb n max) (bad_output max) >> ok n
output_of p max (some _) = err (bad_output max)

-- `executionToken.split(".")[1] === machineId`
unfoldable pub is_token_of : String → String → Bool
is_token_of token machine_id = elim (get_elem? (split_dots token) 1) [
  | none ↦ false
  | some part ↦ str_eq part machine_id
]

-- `catch (error)`: what was thrown becomes a ContractException
unfoldable pub as_config {ℓ} : {A : Type ℓ} → Result A → Result A
as_config (ok a) = ok a
as_config (err e) = err (contract invalid_config (message_of e))

unfoldable pub as_input {ℓ} : {A : Type ℓ} → Result A → Result A
as_input (ok a) = ok a
as_input (err e) = err (contract invalid_input (message_of e))

module _ (parse_url : String → Option Url) where
  unfoldable pub config_of : Fields → Result PiConfig
  config_of c = do
    provider ← provider_of (get "provider" c)
    model ← model_of provider (get "modelId" c)
    reasoning ← reasoning_of (get "reasoning" c)
    cwd ← cwd_of (get "cwd" c)
    output ← output_of provider model.1 (get "maxOutputTokens" c)
    machine_id ← parse_uuid (get "machineId" c)
    token ← parse_execution_token (get "executionToken" c)
    require (is_token_of token machine_id) (error "executionToken must belong to machineId.")
    account_id ← parse_uuid (get "accountId" c)
    url ← parse_execution_gateway_url parse_url (get "executionGatewayUrl" c)
    ok (record {
      provider = provider;
      model_id = model.0;
      account_id = account_id;
      reasoning = reasoning;
      machine_id = machine_id;
      execution_token = token;
      execution_gateway_url = url;
      cwd = cwd;
      max_output_tokens = output;
    })

  unfoldable pub parse_pi_config : Json → Result PiConfig
  parse_pi_config value = as_config (
      fields_of (some value) (
        "provider" ∷ "modelId" ∷ "accountId" ∷ "reasoning" ∷ "machineId" ∷ "executionGatewayUrl"
        ∷ "executionToken" ∷ "cwd" ∷ "maxOutputTokens" ∷ [])
      >>= config_of)

-- The code casts `session.config` to the configuration; here its fields are read from the JSON.
unfoldable pub text_of : Option Json → Result String
text_of (some (str s)) = ok s
text_of _ = err (error "Missing configuration field.")

unfoldable pub number_of : Option Json → Result ℕ
number_of (some (num (whole n))) = ok n
number_of _ = err (error "Missing configuration field.")

unfoldable pub stored_config : Json → Result PiConfig
stored_config (obj c) = do
  provider ← provider_of (get "provider" c)
  model_id ← text_of (get "modelId" c)
  account_id ← text_of (get "accountId" c)
  reasoning ← text_of (get "reasoning" c)
  machine_id ← text_of (get "machineId" c)
  token ← text_of (get "executionToken" c)
  url ← text_of (get "executionGatewayUrl" c)
  cwd ← text_of (get "cwd" c)
  output ← number_of (get "maxOutputTokens" c)
  ok (record {
    provider = provider;
    model_id = model_id;
    account_id = account_id;
    reasoning = reasoning;
    machine_id = machine_id;
    execution_token = token;
    execution_gateway_url = url;
    cwd = cwd;
    max_output_tokens = output;
  })
stored_config _ = err (error "Missing configuration field.")

abbrev pub body_json : EventBody → Json
body_json e = obj (field "type" (str e.type) (field "payload" e.payload end))

unfoldable pub is_nonempty_list : Option Json → Bool
is_nonempty_list (some (arr items)) = not (count items == 0)
is_nonempty_list _ = false

unfoldable pub check_message : EventBody → Result (Unit {0})
check_message event = do
  p ← fields_of (some event.payload) ("message" ∷ [])
  value ← defined (get "message" p)
  message ← parse_llm_message value
  require (is_text (get "role" message) "user" && is_nonempty_list (get "content" message))
      (error "Expected a nonempty user message content array.")

unfoldable pub is_run_id : Option Json → Bool
is_run_id (some (str id)) = not (is_blank id) && leb (utf16_length id) 2048
is_run_id _ = false

unfoldable pub check_cancel : EventBody → Result (Unit {0})
check_cancel event = do
  p ← fields_of (some event.payload) ("runId" ∷ [])
  require (is_run_id (get "runId" p)) (error "runId is required.")

unfoldable pub check_input : EventBody → Result (Unit {0})
check_input event =
    if str_eq event.type "pi_no_compaction.message"
    then check_message event
    else if str_eq event.type "pi_no_compaction.cancel"
    then check_cancel event
    else if str_eq event.type "pi_no_compaction.resume"
    then fields_of (some event.payload) [] >> ok tt
    else err (error "Unsupported Pi input.")

unfoldable pub parse_pi_input : EventBody → Result EventBody
parse_pi_input value = as_input (do
  event ← parse_event_body (body_json value)
  require (leb (utf8_bytes (stringify (body_json event))) 1800000)
      (error "Input exceeds the 1,800,000-byte harness input limit.")
  check_input event
  ok event)
