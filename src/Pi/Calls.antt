-- ===== src/Pi/Calls.antt =====
-- `toolCalls` of packages/harness-pi-no-compaction/src/llm.ts: the calls in an assistant message of a
-- provider.
use managed_agents.Common.{
  String, Bool, true, false, not, ◌&&◌, ◌||◌, Option, none, some, is_some, if◌then◌else◌, List, [],
  ◌∷◌, ◌++◌, any, leb, str_eq, Result, ok, err, ◌>>=◌, ◌>>◌, require, refuse, Failure,
  harness_failure, error,
}
use managed_agents.Contracts.Text.{utf16_length, is_blank}
use managed_agents.Contracts.Json.{Json, null, str, arr, obj, Items, nil, cons, Fields, get}
use managed_agents.Contracts.Operation.{is_text}
use managed_agents.Pi.Tools.{ToolCall, ToolName, tool_name}

unfoldable pub object : Option Json → Result Fields
object (some (obj r)) = ok r
object _ = err (harness_failure "INVALID_LLM_RESPONSE" "Malformed native assistant item.")

abbrev pub bad_call : Failure
bad_call =
    harness_failure "INVALID_TOOL_CALL"
      "Expected uniquely identified calls to read, bash, edit or write with JSON argument strings."

-- `add`, where the calls so far hold the ids so far
unfoldable pub is_new_id : String → List ToolCall → Bool
is_new_id id calls =
    not (is_blank id) && leb (utf16_length id) 2048 && not (any (λ c. str_eq c.call_id id) calls)

unfoldable pub add_named :
    String → Option ToolName → Option Json → List ToolCall → Result (List ToolCall)
add_named id (some name) (some (str args)) calls =
    require (is_new_id id calls) bad_call
    >> ok (calls ++ record { call_id = id; name = name; arguments = args } ∷ [])
add_named id _ _ calls = err bad_call

unfoldable pub add_call :
    Option Json → Option Json → Option Json → List ToolCall → Result (List ToolCall)
add_call (some (str id)) name args calls = add_named id (tool_name name) args calls
add_call _ name args calls = err bad_call

unfoldable pub openai_item : Json → List ToolCall → Result (List ToolCall)
openai_item raw calls = do
  item ← object (some raw)
  if is_text (get "type" item) "function_call"
      then refuse (is_some (get "status" item) && not (is_text (get "status" item) "completed"))
          (harness_failure "INVALID_TOOL_CALL" "Incomplete function call.")
        >> add_call (get "call_id" item) (get "name" item) (get "arguments" item) calls
      else if is_text (get "type" item) "message" || is_text (get "type" item) "reasoning"
      then ok calls
      else err (harness_failure "UNSUPPORTED_LLM_ITEM" "Unsupported OpenAI assistant item.")

unfoldable pub fireworks_call : Json → List ToolCall → Result (List ToolCall)
fireworks_call raw calls = do
  call ← object (some raw)
  fn ← object (get "function" call)
  require (is_text (get "type" call) "function")
      (harness_failure "INVALID_TOOL_CALL" "Unsupported Fireworks tool type.")
  add_call (get "id" call) (get "name" fn) (get "arguments" fn) calls

-- `for (const raw of items)` with the calls so far
unfoldable pub collect :
    (Json → List ToolCall → Result (List ToolCall)) → Items → List ToolCall → Result (List ToolCall)
collect step nil calls = ok calls
collect step (cons raw rest) calls = step raw calls >>= collect step rest

-- undefined, null or a string
unfoldable pub is_optional_text : Option Json → Bool
is_optional_text none = true
is_optional_text (some null) = true
is_optional_text (some (str s)) = true
is_optional_text _ = false

unfoldable pub fireworks_calls : Option Json → Result (List ToolCall)
fireworks_calls none = ok []
fireworks_calls (some null) = ok []
fireworks_calls (some (arr items)) = collect fireworks_call items []
fireworks_calls _ = err (harness_failure "INVALID_TOOL_CALL" "Malformed Fireworks tool calls.")

unfoldable pub fireworks_message : Items → Result (List ToolCall)
fireworks_message (cons only nil) = do
  item ← object (some only)
  require
      (is_text (get "role" item) "assistant"
        && is_optional_text (get "content" item)
        && is_optional_text (get "reasoning_content" item))
      (harness_failure "INVALID_LLM_RESPONSE" "Malformed Fireworks assistant message.")
  fireworks_calls (get "tool_calls" item)
fireworks_message _ =
    err (harness_failure "INVALID_LLM_RESPONSE" "Expected one native Fireworks assistant message.")

-- the content of an assistant message, which its validator left an array
unfoldable pub content_of : Fields → Result Items
content_of message = elim (get "content" message) [
  | some (arr items) ↦ ok items
  | _ ↦ err (error "message.content is not iterable")
]

unfoldable pub openai_message : Items → Result (List ToolCall)
openai_message items = collect openai_item items []

unfoldable pub tool_calls : Fields → Result (List ToolCall)
tool_calls message =
    if is_text (get "provider" message) "openai"
    then content_of message >>= openai_message
    else if is_text (get "provider" message) "fireworks"
    then content_of message >>= fireworks_message
    else err (harness_failure "LLM_MODEL_MISMATCH" "Unsupported assistant provider.")
