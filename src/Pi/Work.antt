-- ===== src/Pi/Work.antt =====
-- What a transition of packages/harness-pi-no-compaction/src/harness.ts works on, and the helpers that
-- change it. What was changed before an exception stays changed. The caches `calls` and `batch` of the
-- context are arguments of the functions that use them.
use managed_agents.Common.{
  ℕ, ◌-◌, String, Bool, false, Option, none, some, if◌then◌else◌, List, [], ◌∷◌, ◌++◌, length, leb,
  ltb, code, Result, ok, require, harness_failure,
}
use managed_agents.Common.Exec.{Exec, pure, lift, gets, ◌>>=◌, ◌>>◌}
use managed_agents.Contracts.Text.{utf8_bytes}
use managed_agents.Contracts.Json.{Json, null, str, arr, obj, nil, cons, end, field, stringify}
use managed_agents.Contracts.Operation.{OperationRequest, max_operation_outcome_bytes, text_or_null}
use managed_agents.Runtime.Harness.{HarnessStatus, PlannedOperation, ReadContext}
use managed_agents.Pi.Tools.{ToolCall, tool_text}
use managed_agents.Pi.Tables.{
  failed, PiError, Reference, proposed, State, BatchRow, PendingRow, done, put_row,
}
use managed_agents.Pi.LlmInput.{items_of}

pub record ProposedMessage : Type 0 where
  pub message : Json
  pub run_id : Option String
  pub in_context : Bool
  pub event_id : Option String
  pub operation_id : Option String
  pub response_metadata : Option Json

-- `PiNoCompactionChanges`
pub record Changes : Type 0 where
  pub batch : List BatchRow
  pub clear_batch : Bool
  pub state : Option State
  pub messages : List ProposedMessage
  pub pending : Option PendingRow
  pub promote_pending : Bool

-- `Context`, with the state `s` that the transition changes
pub record Work : Type 0 where
  pub changes : Changes
  pub operations : List PlannedOperation
  pub status : Option HarnessStatus
  pub state : State

abbrev pub Turn : Type 0 → Type 0
Turn A = Exec Work A

abbrev pub no_changes : Changes
no_changes = record {
  batch = [];
  clear_batch = false;
  state = none;
  messages = [];
  pending = none;
  promote_pending = false;
}

abbrev pub start : State → Work
start s = record { changes = no_changes; operations = []; status = none; state = s }

abbrev pub modify : (Work → Work) → Turn (Unit {0})
modify f w = (ok tt, f w)

abbrev pub with_status : HarnessStatus → Work → Work
with_status status w = record w { status = some status }

abbrev pub json_or_null : Option Json → Json
json_or_null none = null
json_or_null (some value) = value

-- `assertMessageSize`
unfoldable pub assert_message_size : List Json → Result (Unit {0})
assert_message_size fields =
    require (leb (utf8_bytes (stringify (arr (items_of fields)))) max_operation_outcome_bytes) (
      harness_failure "MESSAGE_TOO_LARGE"
        "Message and metadata exceed the 1,900,000-byte inline storage limit. The oversized message was not stored.")

unfoldable pub message_fields : ProposedMessage → List Json
message_fields p =
    p.message
    ∷ json_or_null p.response_metadata
    ∷ text_or_null p.run_id
    ∷ text_or_null p.event_id
    ∷ text_or_null p.operation_id
    ∷ []

unfoldable pub push_message : ProposedMessage → Work → Work
push_message p w = record w {
  changes = record w.changes { messages = w.changes.messages ++ p ∷ [] };
}

-- a reference to a message that is not inserted yet; `apply` resolves it
unfoldable pub append : ProposedMessage → Turn Reference
append p = do
  lift (assert_message_size (message_fields p))
  modify (push_message p)
  gets (λ w. proposed (length w.changes.messages))

unfoldable pub planned : String → OperationRequest → PlannedOperation
planned key request = record {
  key = key;
  provider = request.provider;
  type = request.type;
  version = request.version;
  input = request.input;
}

-- `operation`
unfoldable pub plan_operation : ReadContext → String → OperationRequest → Turn String
plan_operation read key request = do
  modify (λ w. record w { operations = w.operations ++ planned key request ∷ [] })
  lift (read.operation_id key)

unfoldable pub fail : PiError → Work → Work
fail e w = record w {
  status = some HarnessStatus.failed;
  state = record w.state {
    phase = failed;
    active_operation_id = none;
    active_assistant_sequence = none;
    next_tool_index = 0;
    last_error = some e;
    cancel_requested = false;
  };
}

-- `text.slice(0, n)`; of a pair of units that the limit would cut, the first half is dropped too
unfoldable pub first_units : ℕ → String → String
first_units n String.[] = ""
first_units n (String.◌∷◌ c rest) =
    let one = first_units (n - 1) rest in
    let two = first_units (n - 2) rest in
    if ltb (code c) 0x10000
    then if leb 1 n then String.◌∷◌ c one else ""
    else if leb 2 n
    then String.◌∷◌ c two
    else ""

-- the fields of a tool result around its outcome
unfoldable pub tool_message : ToolCall → Json → Json → Json → Json
tool_message call content details outcome = obj (
    field "role" (str "tool_result") (
      field "toolName" (str (tool_text call.name)) (
        field "toolCallId" (str call.call_id)
          (field "content" content (field "details" details (field "outcome" outcome end))))))

unfoldable pub error_outcome : String → Json
error_outcome text = obj (
    field "status" (str "error")
      (field "error" (obj (field "name" (str "ToolError") (field "message" (str text) end))) end))

abbrev pub text_content : String → Json
text_content text = arr (cons (obj (field "type" (str "text") (field "text" (str text) end))) nil)

-- `errorResult`
unfoldable pub error_result : ToolCall → String → Json → Json
error_result call text details =
    let cut = first_units 16384 text in
    tool_message call (text_content cut) details (error_outcome cut)

-- `changed`
unfoldable pub changed : BatchRow → Work → Work
changed row w = record w { changes = record w.changes { batch = put_row row w.changes.batch } }

-- `done`, which returns the row as it leaves it
unfoldable pub settle : BatchRow → Json → Turn BatchRow
settle row message = do
  run_id ← gets (λ w. w.state.run_id)
  lift (
      assert_message_size
        (message ∷ null ∷ text_or_null run_id ∷ null ∷ text_or_null row.operation_id ∷ []))
  let after : BatchRow = record row { status = done; result = some message }
  modify (changed after)
  pure after
