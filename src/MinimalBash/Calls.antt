-- ===== src/MinimalBash/Calls.antt =====
-- packages/harness-minimal-bash/src/openai.ts: the calls in an assistant message, and the request of a
-- turn.
use managed_agents.Common.{
  String, Bool, true, false, not, ◌&&◌, ◌||◌, Option, none, some, if◌then◌else◌, List, [], ◌∷◌,
  ◌++◌, any, leb, ltb, str_eq, Result, ok, err, ◌>>=◌, ◌>>◌, require, refuse, Failure,
  harness_failure,
}
use managed_agents.Contracts.Text.{utf8_bytes, utf16_length, concat}
use managed_agents.Contracts.Json.{
  Json, null, bool, num, str, arr, obj, Items, nil, cons, Fields, end, field, get, stringify, whole,
}
use managed_agents.Contracts.Operation.{max_operation_input_bytes, is_text}
use managed_agents.Contracts.ToolDefinition.{pi_bash_tool}
use managed_agents.MinimalBash.Config.{BashConfig, model_tokens, create_instructions}
use managed_agents.Pi.Calls.{content_of}
use managed_agents.Pi.LlmInput.{transcript, proposed_messages, items_of, first_characters}
use managed_agents.Pi.Tables.{MessageRow}

pub record ToolCall : Type 0 where
  pub call_id : String
  pub arguments : String

abbrev pub bad_call : Failure
bad_call =
    harness_failure "INVALID_TOOL_CALL"
      "Expected complete, uniquely identified bash function calls."

abbrev bad_item : Failure
bad_item = harness_failure "INVALID_LLM_RESPONSE" "Malformed native assistant item."

unfoldable pub is_new_id : String → List ToolCall → Bool
is_new_id id calls =
    not (str_eq id "") && leb (utf16_length id) 2048 && not (any (λ c. str_eq c.call_id id) calls)

unfoldable pub is_complete : Option Json → Bool
is_complete none = true
is_complete status = is_text status "completed"

unfoldable pub add_call :
    Fields → Option Json → Option Json → List ToolCall → Result (List ToolCall)
add_call item (some (str id)) (some (str args)) calls =
    require
      (is_text (get "name" item) "bash" && is_new_id id calls && is_complete (get "status" item))
      bad_call
    >> ok (calls ++ record { call_id = id; arguments = args } ∷ [])
add_call item _ _ calls = err bad_call

-- an item by its type
unfoldable pub typed_item : Fields → Option Json → List ToolCall → Result (List ToolCall)
typed_item item (some (str type)) calls =
    if str_eq type "function_call"
    then add_call item (get "call_id" item) (get "arguments" item) calls
    else if str_eq type "message" || str_eq type "reasoning"
    then ok calls
    else err (
        harness_failure "UNSUPPORTED_LLM_ITEM"
          (concat ("Unsupported assistant item type: " ∷ type ∷ "." ∷ [])))
typed_item item _ calls = err bad_item

unfoldable pub add_item : Json → List ToolCall → Result (List ToolCall)
add_item (obj item) calls = typed_item item (get "type" item) calls
add_item _ calls = err bad_item

-- the loop with the calls so far
unfoldable pub add_items : Items → List ToolCall → Result (List ToolCall)
add_items nil calls = ok calls
add_items (cons raw rest) calls = add_item raw calls >>= add_items rest

unfoldable pub tool_calls : Fields → Result (List ToolCall)
tool_calls message = content_of message >>= λ items. add_items items []

unfoldable pub provider_options : BashConfig → String → Fields
provider_options config session_id = field "store" (bool false) (
    field "reasoning"
      (obj (field "effort" (str config.reasoning) (field "summary" (str "auto") end)))
      (field "include" (arr (cons (str "reasoning.encrypted_content") nil)) (
        field "prompt_cache_key" (str (first_characters 64 session_id)) (
          field "max_output_tokens" (num (whole model_tokens))
            (field "tool_choice" (str "auto") (field "parallel_tool_calls" (bool false) end))))))

unfoldable pub llm_input : BashConfig → String → List Json → Json
llm_input config session_id messages = obj (
    field "previousJobId" null (
      field "accountId" (str config.account_id) (
        field "modelId" (str config.model_id) (
          field "instructions" (str (create_instructions config.cwd)) (
            field "messages" (arr (items_of messages)) (
              field "tools" (arr (cons pi_bash_tool nil))
                (field "providerOptions" (obj (provider_options config session_id)) end)))))))

unfoldable pub build_llm_input : BashConfig → String → List MessageRow → List Json → Result Json
build_llm_input config session_id rows appended = do
  stored ← transcript 0 rows
  later ← proposed_messages appended
  let input = llm_input config session_id (stored ++ later)
  refuse (ltb max_operation_input_bytes (utf8_bytes (stringify input))) (
      harness_failure "OPERATION_INPUT_TOO_LARGE"
        "Conversation and request settings exceed the 8 MiB operation input limit.")
  ok input
