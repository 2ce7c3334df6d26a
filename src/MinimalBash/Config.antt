-- ===== src/MinimalBash/Config.antt =====
-- packages/harness-minimal-bash/src/contracts.ts and instructions.ts. `parse_url` is the platform's `URL`.
use managed_agents.Common.{
  ℕ, String, Option, none, some, if◌then◌else◌, List, [], ◌∷◌, str_eq, Result, ok, err, ◌>>=◌, ◌>>◌,
  require, error,
}
use managed_agents.Contracts.Text.{concat, includes}
use managed_agents.Contracts.Json.{Json, null, str, obj, Fields, end, field, get}
use managed_agents.Contracts.Session.{HarnessIdentity, EventBody, parse_event_body}
use managed_agents.Contracts.Operation.{is_text}
use managed_agents.Contracts.Llm.{parse_uuid}
use managed_agents.Contracts.ToolExecution.{Url, parse_execution_token, parse_execution_gateway_url}
use managed_agents.Pi.Config.{
  reasoning_levels, fields_of, cwd_of, is_token_of, as_config, as_input, text_of, body_json,
  check_message, check_cancel,
}

abbrev pub bash_identity : HarnessIdentity
bash_identity = record { id = "minimal-bash"; version = "v7" }

-- `OPENAI_MODELS`, each of which has the same largest output
unfoldable pub models : List String
models = "gpt-6-astra" ∷ "gpt-5.6-sol" ∷ "gpt-5.6-terra" ∷ "gpt-5.6-luna" ∷ []

abbrev pub model_tokens : ℕ
model_tokens = 128000

pub record BashConfig : Type 0 where
  pub model_id : String
  pub account_id : String
  pub reasoning : String
  pub machine_id : String
  pub execution_token : String
  pub execution_gateway_url : String
  pub cwd : String

-- the object that the parser returns
unfoldable pub config_json : BashConfig → Json
config_json c = obj (
    field "provider" (str "openai") (
      field "modelId" (str c.model_id) (
        field "accountId" (str c.account_id) (
          field "reasoning" (str c.reasoning) (
            field "machineId" (str c.machine_id) (
              field "executionToken" (str c.execution_token) (
                field "executionGatewayUrl" (str c.execution_gateway_url)
                  (field "cwd" (str c.cwd) end))))))))

unfoldable pub model_of : Option Json → Result String
model_of (some (str model)) =
    require (includes models model) (error "modelId must belong to the OpenAI catalog.") >> ok model
model_of _ = err (error "modelId must belong to the OpenAI catalog.")

-- `c.reasoning ?? "medium"`, where null is refused
unfoldable pub reasoning_of : Option Json → Result String
reasoning_of none = ok "medium"
reasoning_of (some null) = err (error "reasoning cannot be null.")
reasoning_of (some (str level)) =
    require (includes reasoning_levels level)
      (error "reasoning must be low, medium, high, xhigh or max.")
    >> ok level
reasoning_of _ = err (error "reasoning must be low, medium, high, xhigh or max.")

module _ (parse_url : String → Option Url) where
  unfoldable pub config_of : Fields → Result BashConfig
  config_of c = do
    require (is_text (get "provider" c) "openai") (error "provider must be openai.")
    model ← model_of (get "modelId" c)
    reasoning ← reasoning_of (get "reasoning" c)
    cwd ← cwd_of (get "cwd" c)
    machine_id ← parse_uuid (get "machineId" c)
    token ← parse_execution_token (get "executionToken" c)
    require (is_token_of token machine_id) (error "executionToken must belong to machineId.")
    account_id ← parse_uuid (get "accountId" c)
    url ← parse_execution_gateway_url parse_url (get "executionGatewayUrl" c)
    ok (record {
      model_id = model;
      account_id = account_id;
      reasoning = reasoning;
      machine_id = machine_id;
      execution_token = token;
      execution_gateway_url = url;
      cwd = cwd;
    })

  unfoldable pub parse_bash_config : Json → Result BashConfig
  parse_bash_config value = as_config (
      fields_of (some value) (
        "provider" ∷ "modelId" ∷ "accountId" ∷ "reasoning" ∷ "machineId" ∷ "executionGatewayUrl"
        ∷ "executionToken" ∷ "cwd" ∷ [])
      >>= config_of)

-- The code casts `session.config` to the configuration; here its fields are read from the JSON.
unfoldable pub stored_config : Json → Result BashConfig
stored_config (obj c) = do
  model_id ← text_of (get "modelId" c)
  account_id ← text_of (get "accountId" c)
  reasoning ← text_of (get "reasoning" c)
  machine_id ← text_of (get "machineId" c)
  token ← text_of (get "executionToken" c)
  url ← text_of (get "executionGatewayUrl" c)
  cwd ← text_of (get "cwd" c)
  ok (record {
    model_id = model_id;
    account_id = account_id;
    reasoning = reasoning;
    machine_id = machine_id;
    execution_token = token;
    execution_gateway_url = url;
    cwd = cwd;
  })
stored_config _ = err (error "Missing configuration field.")

unfoldable pub check_input : EventBody → Result (Unit {0})
check_input event =
    if str_eq event.type "minimal_bash.message"
    then check_message event
    else if str_eq event.type "minimal_bash.cancel"
    then check_cancel event
    else if str_eq event.type "minimal_bash.resume"
    then fields_of (some event.payload) [] >> ok tt
    else err (error "Unsupported minimal bash input.")

unfoldable pub parse_bash_input : EventBody → Result EventBody
parse_bash_input value =
    as_input (do event ← parse_event_body (body_json value); check_input event; ok event)

unfoldable pub create_instructions : String → String
create_instructions cwd = concat (
    "You are a coding agent. Help the user inspect, understand, modify, and test code using the bash tool. "
    ∷ "Only bash is available. Each invocation is an independent shell starting in the configured working directory; shell state does not persist. "
    ∷ "Use tool results as evidence, do not claim unperformed actions, and provide a concise final explanation of your changes and checks."
    ∷ "\nWorking directory: " ∷ cwd ∷ [])
