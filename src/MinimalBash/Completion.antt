-- ===== src/MinimalBash/Completion.antt =====
-- `completeLlm` of packages/harness-minimal-bash/src/harness.ts.
use managed_agents.Common.{
  Bool, true, false, not, ◌&&◌, if◌then◌else◌, List, [], ◌∷◌, Result, ok, ◌>>=◌, ◌>>◌, require,
  refuse, harness_failure,
}
use managed_agents.Contracts.Text.{concat}
use managed_agents.Contracts.Json.{get}
use managed_agents.Contracts.Operation.{is_text}
use managed_agents.MinimalBash.Config.{BashConfig}
use managed_agents.MinimalBash.Calls.{ToolCall, tool_calls}
use managed_agents.Pi.Response.{LlmResult, message_of_result, is_incomplete, text_or_empty}

unfoldable pub is_empty : List ToolCall → Bool
is_empty [] = true
is_empty (call ∷ calls) = false

-- what is checked after the response was appended, with the calls of the message
unfoldable pub checked_calls : BashConfig → LlmResult → Result (List ToolCall)
checked_calls config result = do
  let message = message_of_result result
  let reason = get "stopReason" result.response
  require
      (is_text (get "provider" message) "openai"
        && is_text (get "modelId" result.response) config.model_id)
      (harness_failure "LLM_MODEL_MISMATCH"
        "Response does not match the configured provider/model.")
  refuse (is_incomplete reason) (
      harness_failure "LLM_INCOMPLETE" (
        concat (
          "Model stopped with "
          ∷ text_or_empty reason
          ∷ "; no tool calls were executed. The response is retained outside model context."
          ∷ [])))
  calls ← tool_calls message
  refuse (if is_text reason "tool_use" then is_empty calls else not (is_empty calls))
      (harness_failure "INVALID_LLM_RESPONSE" "Tool calls and stop reason disagree.")
  ok calls
