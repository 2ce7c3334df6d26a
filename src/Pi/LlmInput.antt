-- ===== src/Pi/LlmInput.antt =====
-- `buildLlmInput` of packages/harness-pi-no-compaction/src/llm.ts: the request of a turn, from the
-- messages in context and those that the transition proposes.
use managed_agents.Common.{
  ℕ, zero, suc, ◌+◌, String, Bool, true, false, List, [], ◌∷◌, ◌++◌, if◌then◌else◌, ltb, Result, ok,
  ◌>>=◌, ◌>>◌, refuse, harness_failure, error,
}
use managed_agents.Contracts.Text.{utf8_bytes}
use managed_agents.Contracts.Json.{
  Json, null, bool, num, str, arr, obj, Items, nil, cons, Fields, end, field, get, stringify, whole,
}
use managed_agents.Contracts.Operation.{max_operation_input_bytes, is_text}
use managed_agents.Pi.Config.{PiConfig, openai, fireworks}
use managed_agents.Pi.Instructions.{create_instructions}
use managed_agents.Pi.Tools.{tools}
use managed_agents.Pi.Tables.{MessageRow}

unfoldable pub has_role : String → Json → Bool
has_role role (obj message) = is_text (get "role" message) role
has_role role _ = false

-- the messages of the table, with their bytes so far
unfoldable pub transcript : ℕ → List MessageRow → Result (List Json)
transcript bytes [] = ok []
transcript bytes (row ∷ rows) =
    let skipped = transcript bytes rows in
    let later = transcript (bytes + utf8_bytes (stringify row.message)) rows in
    if row.in_context
    then (do
      refuse (ltb max_operation_input_bytes (bytes + utf8_bytes (stringify row.message))) (
          harness_failure "OPERATION_INPUT_TOO_LARGE"
            "Conversation exceeds the 8 MiB operation input limit. Compaction is not implemented.")
      refuse (has_role "custom" row.message)
          (error "Harness lifecycle messages must not enter model context.")
      rest ← later
      ok (row.message ∷ rest))
    else skipped

unfoldable pub proposed_messages : List Json → Result (List Json)
proposed_messages [] = ok []
proposed_messages (message ∷ messages) = do
  refuse (has_role "custom" message) (error "Lifecycle messages must not enter model context.")
  rest ← proposed_messages messages
  ok (message ∷ rest)

unfoldable pub items_of : List Json → Items
items_of [] = nil
items_of (message ∷ messages) = cons message (items_of messages)

-- `Array.from(text).slice(0, n).join("")`
unfoldable pub first_characters : ℕ → String → String
first_characters zero text = ""
first_characters (suc n) String.[] = ""
first_characters (suc n) (String.◌∷◌ c rest) = String.◌∷◌ c (first_characters n rest)

unfoldable pub provider_options : PiConfig → String → Fields
provider_options config session_id = elim config.provider [
  | openai ↦ field "store" (bool false) (
      field "reasoning"
        (obj (field "effort" (str config.reasoning) (field "summary" (str "auto") end)))
        (field "include" (arr (cons (str "reasoning.encrypted_content") nil)) (
          field "prompt_cache_key" (str (first_characters 64 session_id)) (
            field "max_output_tokens" (num (whole config.max_output_tokens))
              (field "tool_choice" (str "auto") (field "parallel_tool_calls" (bool true) end))))))
  | fireworks ↦ field "reasoning_effort" (str config.reasoning) (
      field "max_tokens" (num (whole config.max_output_tokens)) (
        field "prompt_cache_key" (str (first_characters 64 session_id)) (
          field "tool_choice" (str "auto") (
            field "parallel_tool_calls" (bool true)
              (field "context_length_exceeded_behavior" (str "error") end)))))
]

unfoldable pub llm_input : PiConfig → String → List Json → Json
llm_input config session_id messages = obj (
    field "previousJobId" null (
      field "accountId" (str config.account_id) (
        field "modelId" (str config.model_id) (
          field "instructions" (str (create_instructions config.cwd)) (
            field "messages" (arr (items_of messages)) (
              field "tools" (arr tools)
                (field "providerOptions" (obj (provider_options config session_id)) end)))))))

unfoldable pub build_llm_input : PiConfig → String → List MessageRow → List Json → Result Json
build_llm_input config session_id rows appended = do
  stored ← transcript 0 rows
  later ← proposed_messages appended
  let input = llm_input config session_id (stored ++ later)
  refuse (ltb max_operation_input_bytes (utf8_bytes (stringify input))) (
      harness_failure "OPERATION_INPUT_TOO_LARGE"
        "Conversation and request settings exceed the 8 MiB operation input limit.")
  ok input
