-- ===== src/Pi/Completion.antt =====
-- `completeLlm` and `completeTool` of packages/harness-pi-no-compaction/src/harness.ts: what the outcome
-- of an operation does to the run.
use managed_agents.Common.{
  ℕ, zero, suc, ◌-◌, String, Bool, true, false, ◌&&◌, Option, none, some, is_some, if◌then◌else◌,
  List, [], ◌∷◌, find, ◌==◌, str_eq, Result, err,
}
use managed_agents.Common.Exec.{pure, lift, gets, ◌>>=◌, ◌>>◌}
use managed_agents.Common.{error}
use managed_agents.Contracts.Json.{Json, obj}
use managed_agents.Contracts.Operation.{OperationOutcome}
use managed_agents.Runtime.Harness.{ReadContext}
use managed_agents.Pi.Config.{PiConfig}
use managed_agents.Pi.Tools.{ToolCall}
use managed_agents.Pi.Calls.{tool_calls}
use managed_agents.Pi.Tables.{
  tools, PiError, Reference, stored, proposed, BatchRow, queued, MessageRow, Tables, is_active,
  put_row,
}
use managed_agents.Pi.Work.{ProposedMessage, Work, Turn, modify, append, first_units, settle}
use managed_agents.Pi.Turn.{finish_turn}
use managed_agents.Pi.Batch.{advance_tools, call_of}
use managed_agents.Pi.Response.{
  LlmResult, llm_result, message_of_result, metadata_of_result, checked_calls, is_empty,
  tool_outcome,
}

-- the calls of a stored message
unfoldable pub calls_of_row : Option MessageRow → Result (List ToolCall)
calls_of_row none = err (error "Expected one row.")
calls_of_row (some row) = calls_of_message row.message
  where
    calls_of_message : Json → Result (List ToolCall)
    calls_of_message (obj message) = tool_calls message
    calls_of_message _ = err (error "Expected an assistant message.")

-- `currentCalls`, where no calls are cached; no message has a negative sequence
unfoldable pub current_calls : Tables → Option Reference → Result (List ToolCall)
current_calls t none = err (error "Missing active assistant message.")
current_calls t (some (stored n)) = calls_of_row (find (λ row. row.sequence == n) t.messages)
current_calls t (some (proposed n)) = err (error "Expected one row.")

-- the n-th proposed message enters the context
unfoldable pub admit_message : ℕ → List ProposedMessage → List ProposedMessage
admit_message n [] = []
admit_message zero (p ∷ rest) = record p { in_context = true } ∷ rest
admit_message (suc n) (p ∷ rest) = p ∷ admit_message n rest

abbrev pub index_of : Reference → ℕ
index_of (proposed n) = n - 1
index_of (stored n) = n - 1

-- a batch with a queued row for each call
unfoldable pub new_batch : ℕ → List ToolCall → List BatchRow
new_batch index [] = []
new_batch index (call ∷ calls) =
    record { call_index = index; status = queued; operation_id = none; result = none }
    ∷ new_batch (suc index) calls

abbrev accept_response : Reference → Work → Work
accept_response row w = record w {
  changes = record w.changes { messages = admit_message (index_of row) w.changes.messages };
  state = record w.state { active_operation_id = none };
}

abbrev open_batch : Reference → List BatchRow → Work → Work
open_batch row rows w = record w {
  state = record w.state {
    phase = tools;
    active_assistant_sequence = some row;
    next_tool_index = 0;
  };
  changes = record w.changes { batch = rows };
}

abbrev pub response_message : LlmResult → Option String → String → ProposedMessage
response_message result run_id operation_id = record {
  message = obj (message_of_result result);
  run_id = run_id;
  in_context = false;
  event_id = none;
  operation_id = some operation_id;
  response_metadata = some (metadata_of_result result);
}

-- `row.operation_id === operationId && row.status === "active"`
unfoldable pub is_row_of : String → BatchRow → Bool
is_row_of id row =
    elim row.operation_id [ none ↦ false | some own ↦ str_eq own id ] && is_active row

-- the first failure of a batch is the run's
unfoldable pub note_failure : Option PiError → Work → Work
note_failure none w = w
note_failure (some failure) w = if is_some w.state.last_error then w else record w {
  state = record w.state {
    last_error = some (record { code = first_units 1024 failure.code; message = failure.message });
  };
}

module _ (parse_json : String → Result Json) (over_limit : String → Bool) (config : PiConfig)
    (read : ReadContext) (t : Tables) where
  unfoldable pub use_calls : Reference → List ToolCall → Turn (Unit {0})
  use_calls row calls =
      if is_empty calls
      then finish_turn config read t false
      else modify (open_batch row (new_batch 0 calls))
        >> advance_tools config read t parse_json over_limit calls (new_batch 0 calls)

  unfoldable pub complete_llm : OperationOutcome → String → Turn (Unit {0})
  complete_llm outcome operation_id = do
    result ← lift (llm_result outcome)
    run_id ← gets (λ w. w.state.run_id)
    row ← append (response_message result run_id operation_id)
    calls ← lift (checked_calls config result)
    modify (accept_response row)
    use_calls row calls

  unfoldable pub settle_tool :
      OperationOutcome → List ToolCall → BatchRow → ToolCall → Turn (Unit {0})
  settle_tool outcome calls row call = do
    run_id ← gets (λ w. w.state.run_id)
    let completion = tool_outcome run_id call row.operation_id outcome
    after ← settle row completion.message
    modify (note_failure completion.failure)
    advance_tools config read t parse_json over_limit calls (put_row after t.batch)

  unfoldable pub complete_row : OperationOutcome → Option BatchRow → Turn (Unit {0})
  complete_row outcome none = pure tt
  complete_row outcome (some row) = do
    sequence ← gets (λ w. w.state.active_assistant_sequence)
    calls ← lift (current_calls t sequence)
    call ← lift (call_of calls row)
    settle_tool outcome calls row call

  unfoldable pub complete_tool : OperationOutcome → String → Turn (Unit {0})
  complete_tool outcome operation_id = complete_row outcome (find (is_row_of operation_id) t.batch)
