-- ===== src/MinimalBash/Commands.antt =====
-- `advanceTools` and `completeBash` of packages/harness-minimal-bash/src/harness.ts: the commands of a turn,
-- one after the other.
use managed_agents.Common.{
  ℕ, ◌+◌, String, Bool, true, false, ◌&&◌, Option, none, some, if◌then◌else◌, List, [], ◌∷◌,
  get_elem?, find, ◌==◌, Result, ok, err, contract, harness_failure, syntax_error, error,
}
use managed_agents.Common.Exec.{pure, throw, lift, gets, ◌>>=◌, ◌>>◌}
use managed_agents.Contracts.Text.{concat}
use managed_agents.Contracts.Json.{
  Json, bool, str, arr, obj, Items, nil, cons, Fields, end, field, get,
}
use managed_agents.Contracts.Operation.{
  OperationOutcome, OperationRequest, succeeded, failed, cancelled, is_text, outcome_json,
}
use managed_agents.Contracts.LlmMessage.{parse_llm_message}
use managed_agents.Runtime.Harness.{ReadContext}
use managed_agents.MinimalBash.Config.{BashConfig}
use managed_agents.MinimalBash.Calls.{ToolCall, tool_calls}
use managed_agents.MinimalBash.State.{bash, Tables}
use managed_agents.MinimalBash.Work.{Work, Turn, modify, append, plan_operation, finish_turn}
use managed_agents.Pi.Tables.{PiError, Reference, stored, proposed, MessageRow}
use managed_agents.Pi.Work.{text_content}
use managed_agents.Pi.Batch.{result_message, skip}
use managed_agents.Pi.Tools as PiTools

-- the calls of a stored message
unfoldable pub calls_of_message : Json → Result (List ToolCall)
calls_of_message (obj message) = tool_calls message
calls_of_message _ = err (error "Expected an assistant message.")

unfoldable pub calls_of_row : Option MessageRow → Result (List ToolCall)
calls_of_row none = err (error "Expected one row.")
calls_of_row (some row) = calls_of_message row.message

-- `currentCalls`, where no calls are cached; no message has a negative sequence
unfoldable pub current_calls : Tables → Option Reference → Result (List ToolCall)
current_calls t none = err (error "Missing active assistant message.")
current_calls t (some (stored n)) = calls_of_row (find (λ row. row.sequence == n) t.messages)
current_calls t (some (proposed n)) = err (error "Expected one row.")

unfoldable pub bash_outcome : Option String → Json
bash_outcome none = obj (field "status" (str "success") end)
bash_outcome (some message) = obj (
    field "status" (str "error") (
      field "error" (obj (field "name" (str "BashError") (field "message" (str message) end))) end))

-- `toolResult`
unfoldable pub tool_result : String → Json → Option String → Json → Option String → Turn (Unit {0})
tool_result call_id content failure details operation_id = do
  message ← lift (
      parse_llm_message (
        obj (
          field "role" (str "tool_result") (
            field "toolName" (str "bash") (
              field "toolCallId" (str call_id) (
                field "content" content
                  (field "details" details (field "outcome" (bash_outcome failure) end))))))))
  run_id ← gets (λ w. w.state.run_id)
  append (result_message (obj message) run_id operation_id)
  pure tt

-- `errorResult`
unfoldable pub error_result : String → String → Json → Option String → Turn (Unit {0})
error_result call_id message details operation_id =
    tool_result call_id (text_content message) (some message) details operation_id

abbrev not_executed : Json
not_executed = obj (field "executed" (bool false) end)

abbrev outcome_unknown : Json
outcome_unknown = obj (field "outcomeUnknown" (bool true) end)

-- `s.next_tool_index++`
abbrev pub next_call : Work → Work
next_call w = record w { state = record w.state { next_tool_index = w.state.next_tool_index + 1 } }

abbrev pub run_command : String → Work → Work
run_command id w = record w {
  state = record w.state { active_operation_id = some id; phase = bash };
}

abbrev pub refuse_arguments : ToolCall → String → Turn (Unit {0})
refuse_arguments call message = do
  error_result call.call_id (concat ("Invalid bash arguments: " ∷ message ∷ [])) not_executed none
  modify next_call

-- one iteration, from the request of the call; `later` is the rest of the loop
unfoldable pub start_call :
    ReadContext → ToolCall → Result OperationRequest → Turn (Unit {0}) → Turn (Unit {0})
start_call read call (ok request) later = do
  id ← plan_operation read (concat ("bash:" ∷ call.call_id ∷ [])) request
  modify (run_command id)
start_call read call (err (syntax_error message)) later = refuse_arguments call message >> later
start_call read call (err (contract c message)) later = refuse_arguments call message >> later
start_call read call (err e) later = throw e

-- after a failure the calls that are left are answered without being run
unfoldable pub skip_calls : List ToolCall → Turn (Unit {0})
skip_calls [] = pure tt
skip_calls (call ∷ calls) = do
  error_result call.call_id
      "Not executed: the preceding bash operation could not be safely completed." not_executed none
  skip_calls calls

pub record BashResult : Type 0 where
  pub is_error : Bool
  pub content : Items
  pub details : Fields

-- a text part
unfoldable pub is_text_part : Json → Bool
is_text_part (obj part) =
    is_text (get "type" part) "text" && (elim (get "text" part) [ some (str s) ↦ true | _ ↦ false ])
is_text_part _ = false

unfoldable pub all_text : Items → Bool
all_text nil = true
all_text (cons part rest) = is_text_part part && all_text rest

unfoldable pub result_parts : Option Json → Option Json → Option Json → Option BashResult
result_parts (some (bool is_error)) (some (arr content)) (some (obj details)) =
    if all_text content
    then some (record { is_error = is_error; content = content; details = details })
    else none
result_parts _ _ _ = none

unfoldable pub bash_result : Json → Option BashResult
bash_result (obj result) =
    result_parts (get "isError" result) (get "content" result) (get "details" result)
bash_result _ = none

abbrev invalid_result : PiError
invalid_result = record {
  code = "INVALID_BASH_RESULT";
  message =
      "Bash result could not be validated. Execution may have occurred; inspect the machine before resuming.";
}

abbrev lost_execution : PiError
lost_execution = record {
  code = "BASH_EXECUTION_UNKNOWN";
  message =
      "Execution outcome is unknown. Inspect the machine before explicitly resuming; the command will not be automatically rerun.";
}

abbrev cancelled_operation : PiError
cancelled_operation = record {
  code = "BASH_CANCELLED";
  message = "Bash operation was cancelled upstream.";
}

-- `catch`, of what a malformed result throws
unfoldable pub invalid_bash_result : String → String → Turn (Option PiError)
invalid_bash_result call_id operation_id = do
  error_result call_id invalid_result.message outcome_unknown (some operation_id)
  pure (some invalid_result)

unfoldable pub recovered :
    String → String → Option PiError → Result (Unit {0}) → Turn (Option PiError)
recovered call_id operation_id failure (ok done) = pure failure
recovered call_id operation_id failure (err (contract c message)) =
    invalid_bash_result call_id operation_id
recovered call_id operation_id failure (err e) = throw e

-- a result that has its parts
unfoldable pub keep_result : String → String → BashResult → Turn (Option PiError)
keep_result call_id operation_id result w =
    let failure = if result.is_error then some "Bash command failed; see tool output." else none in
    let lost = if is_text (get "reason" result.details) "lost" then some lost_execution else none in
    let (kept, w') =
      tool_result call_id (arr result.content) failure (obj result.details) (some operation_id) w in
    recovered call_id operation_id lost kept w'

unfoldable pub keep_parts : String → String → Option BashResult → Turn (Option PiError)
keep_parts call_id operation_id none = invalid_bash_result call_id operation_id
keep_parts call_id operation_id (some result) = keep_result call_id operation_id result

-- the failure that an outcome means, after its result was appended
unfoldable pub settle_bash : String → String → OperationOutcome → Turn (Option PiError)
settle_bash call_id operation_id (succeeded value) =
    keep_parts call_id operation_id (bash_result value)
settle_bash call_id operation_id (failed origin e) = do
  error_result call_id e.message (outcome_json (failed origin e)) (some operation_id)
  pure (some (record { code = e.code; message = e.message }))
settle_bash call_id operation_id cancelled = do
  error_result call_id cancelled_operation.message (outcome_json cancelled) (some operation_id)
  pure (some cancelled_operation)

unfoldable pub active_call : List ToolCall → ℕ → Result ToolCall
active_call calls index = elim (get_elem? calls index) [
  | none ↦ err (error "Missing active bash call.")
  | some call ↦ ok call
]

abbrev pub finish_command : Work → Work
finish_command w = record w {
  state = record w.state {
    active_operation_id = none;
    next_tool_index = w.state.next_tool_index + 1;
  };
}

module _ (parse_json : String → Result Json) (over_limit : String → Bool) (config : BashConfig)
    (read : ReadContext) (t : Tables) where
  -- the arguments of the call with the machine and its directory
  unfoldable pub bash_request : ToolCall → Result OperationRequest
  bash_request call =
      PiTools.tool_request parse_json over_limit
        (record { call_id = call.call_id; name = PiTools.bash; arguments = call.arguments })
        config.machine_id config.cwd

  -- `while (s.next_tool_index < calls.length)`, on the calls from the next one
  unfoldable pub advance_calls : List ToolCall → Turn (Unit {0})
  advance_calls [] = finish_turn config read t true
  advance_calls (call ∷ calls) = start_call read call (bash_request call) (advance_calls calls)

  unfoldable pub advance_tools : List ToolCall → Turn (Unit {0})
  advance_tools calls = do
    next ← gets (λ w. w.state.next_tool_index)
    advance_calls (skip next calls)

  unfoldable pub after_bash : List ToolCall → Option PiError → Turn (Unit {0})
  after_bash calls none = advance_tools calls
  after_bash calls (some e) = do
    next ← gets (λ w. w.state.next_tool_index)
    skip_calls (skip next calls)
    throw (harness_failure e.code e.message)

  unfoldable pub complete_bash : OperationOutcome → String → Turn (Unit {0})
  complete_bash outcome operation_id = do
    sequence ← gets (λ w. w.state.active_assistant_sequence)
    calls ← lift (current_calls t sequence)
    index ← gets (λ w. w.state.next_tool_index)
    call ← lift (active_call calls index)
    failure ← settle_bash call.call_id operation_id outcome
    modify finish_command
    after_bash calls failure
