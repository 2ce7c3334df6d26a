-- ===== src/Examples/Batches.antt =====
-- The batches of tool calls of the coding agent at concrete inputs.
use managed_agents.Examples.Agents.{context, unread, config}
use managed_agents.Pi.Rows.{upsert_batch-put_row, has_key, IsOrdered, IsKeyed}
use managed_agents.Pi.LlmInput.{items_of}
use managed_agents.Pi.Harness.{place_batch_row, is_taken, upsert_batch}
use managed_agents.Pi.Order.{flush-front_results, front_results}
use managed_agents.Contracts.Text.{utf8_bytes, utf16_length, is_blank}
use managed_agents.Common.{
  ◌+◌, ◌++◌, length, any, ◌≡◌, refl, ℕ, String, true, false, none, some, List, [], ◌∷◌, ok, ◌≤◌,
  arith,
}
use managed_agents.Contracts.Json.{
  quote, stringify, get, Json, str, arr, obj, nil, cons, Fields, end, field,
}
use managed_agents.Contracts.Operation.{text_or_null, is_text}
use managed_agents.Pi.Tools.{is_mutation, tool_name, ToolCall, edit}
use managed_agents.Pi.Calls.{
  is_new_id, add_named, add_call, object, openai_item, collect, openai_message, content_of,
  tool_calls,
}
use managed_agents.Pi.CallIds.{AreCalls, tool_calls-AreCalls}
use managed_agents.Pi.Tables.{
  put_row, is_active, is_queued, initial_state, BatchRow, active, queued, done,
}
use managed_agents.Pi.Work.{
  push_message, changed, message_fields, assert_message_size, append, Work, start,
}
use managed_agents.Pi.Batch.{
  flush_result, flush_row, advance_call, advance_row, call_of, advance_rows, mutation_busy, flush,
}
use managed_agents.Pi.Lane.{mutates, lanes, advance_rows-lane}

abbrev call_item : String → Json
call_item id = obj (
    field "type" (str "function_call")
      (field "call_id" (str id) (field "name" (str "edit") (field "arguments" (str "{}") end))))

abbrev two_calls : Fields
two_calls =
    field "provider" (str "openai")
      (field "content" (arr (cons (call_item "a") (cons (call_item "b") nil))) end)

abbrev edits : List ToolCall
edits =
    record { call_id = "a"; name = edit; arguments = "{}" }
    ∷ record { call_id = "b"; name = edit; arguments = "{}" }
    ∷ []

two_calls-edits : tool_calls two_calls ≡ ok edits
unfolding tool_calls is_text get content_of openai_message collect openai_item object add_call
    add_named tool_name is_new_id is_blank utf16_length
two_calls-edits = refl

tool_calls-AreCalls_example : AreCalls edits
tool_calls-AreCalls_example = tool_calls-AreCalls two_calls edits two_calls-edits

abbrev rows : List BatchRow
rows =
    record { call_index = 0; status = active; operation_id = some "o"; result = none }
    ∷ record { call_index = 1; status = queued; operation_id = none; result = none }
    ∷ []

busy-rows : mutation_busy edits rows ≡ ok true
unfolding mutation_busy call_of is_mutation
busy-rows = refl

few-rows : lanes edits rows ≤ 1
unfolding lanes mutates is_mutation
few-rows = omega arith

waiting-rows :
    advance_rows unread (λ text. false) config context edits true rows (start initial_state)
    ≡ (ok rows, start initial_state)
unfolding advance_rows advance_row call_of advance_call is_mutation
waiting-rows = refl

advance_rows-lane_example :
    (lanes edits rows ≤ 1) × (any is_queued rows ≡ true → any is_active rows ≡ true)
advance_rows-lane_example =
    advance_rows-lane unread (λ text. false) config context edits true rows rows
      (start initial_state) (start initial_state) few-rows busy-rows waiting-rows

abbrev finished : String → ℕ → BatchRow
finished text index = record {
  call_index = index;
  status = done;
  operation_id = some "o";
  result = some (str text);
}

abbrev batch : List BatchRow
batch =
    finished "first" 0
    ∷ finished "second" 1
    ∷ record { call_index = 2; status = active; operation_id = some "p"; result = none }
    ∷ finished "late" 3
    ∷ []

abbrev flushed_batch : Work
flushed_batch = (flush batch (start initial_state)).1

batch-flush : flush batch (start initial_state) ≡ (ok tt, flushed_batch)
unfolding flush flush_row flush_result append assert_message_size utf8_bytes stringify items_of
    message_fields quote text_or_null changed push_message
batch-flush = refl

flush-front_results_example :
    (flushed_batch.changes.messages ≡ [] ++ front_results none batch)
    × (flushed_batch.state.next_tool_index ≡ 0 + length (front_results none batch))
flush-front_results_example =
    flush-front_results batch (start initial_state) flushed_batch batch-flush

abbrev settled_rows : List BatchRow
settled_rows =
    record { call_index = 0; status = done; operation_id = some "o"; result = some (str "out") }
    ∷ []

abbrev started_row : BatchRow
started_row = record { call_index = 1; status = active; operation_id = some "p"; result = none }

abbrev written : List BatchRow
written =
    finished "out" 0
    ∷ record { call_index = 1; status = queued; operation_id = none; result = none }
    ∷ []

rows-written : upsert_batch settled_rows rows ≡ ok written
unfolding upsert_batch is_taken place_batch_row
rows-written = refl

rows-IsKeyed : IsKeyed settled_rows
unfolding IsKeyed has_key
rows-IsKeyed = (refl, tt)

rows-IsOrdered : IsOrdered 0 rows
unfolding IsOrdered
rows-IsOrdered = (omega arith, (omega arith, tt))

written-key : has_key 1 written ≡ true
unfolding has_key
written-key = refl

all-written :
    upsert_batch (put_row started_row settled_rows) rows ≡ ok (put_row started_row written)
unfolding upsert_batch put_row is_taken place_batch_row
all-written = refl

upsert_batch-put_row_example : put_row started_row written ≡ put_row started_row written
upsert_batch-put_row_example =
    upsert_batch-put_row started_row settled_rows rows written (put_row started_row written)
      rows-IsKeyed rows-IsOrdered rows-written written-key all-written
