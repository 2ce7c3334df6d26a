-- ===== src/Pi/Batch.antt =====
-- `advanceTools` of packages/harness-pi-no-compaction/src/harness.ts: start the queued calls of a
-- batch that may start, then append the results that are next in the order of the calls.
use managed_agents.Common.{
  ℕ, zero, suc, ◌+◌, String, Bool, true, false, ◌&&◌, ◌||◌, Option, none, some, is_some,
  if◌then◌else◌, List, [], ◌∷◌, length, get_elem?, ◌==◌, Result, ok, err, contract, syntax_error,
  error,
}
use managed_agents.Common.Exec.{pure, throw, lift, gets, ◌>>=◌, ◌>>◌}
use managed_agents.Contracts.Text.{concat, decimal}
use managed_agents.Contracts.Json.{Json, bool, obj, end, field}
use managed_agents.Contracts.Operation.{OperationRequest}
use managed_agents.Runtime.Harness.{ReadContext}
use managed_agents.Pi.Config.{PiConfig}
use managed_agents.Pi.Tools.{ToolCall, tool_text, is_mutation, tool_request}
use managed_agents.Pi.Tables.{PiError, BatchRow, active, Tables, is_queued, is_active, is_done}
use managed_agents.Pi.Work.{
  ProposedMessage, Work, Turn, modify, append, plan_operation, fail, error_result, changed, settle,
}
use managed_agents.Pi.Turn.{finish_turn}

-- `calls[row.call_index]!`
unfoldable pub call_of : List ToolCall → BatchRow → Result ToolCall
call_of calls row = elim (get_elem? calls row.call_index) [
  | none ↦ err (error "Cannot read properties of undefined")
  | some call ↦ ok call
]

-- a mutation is active
unfoldable pub mutation_busy : List ToolCall → List BatchRow → Result Bool
mutation_busy calls [] = ok false
mutation_busy calls (row ∷ rows) =
    let rest = mutation_busy calls rows in
    if is_active row
    then elim (call_of calls row) [
      | err e ↦ err e
      | ok call ↦ if is_mutation call.name then ok true else rest
    ]
    else rest

abbrev not_executed : Json
not_executed = obj (field "executed" (bool false) end)

unfoldable pub tool_key : ℕ → String
tool_key index = concat ("tool:" ∷ decimal index ∷ [])

abbrev pub started : String → BatchRow → BatchRow
started id row = record row { operation_id = some id; status = active }

-- the rest of an iteration, from the request: whether a mutation is active now, and the row
unfoldable pub start_call :
    ReadContext → ToolCall → Bool → BatchRow → Result OperationRequest → Turn (Bool × BatchRow)
start_call read call busy row (ok request) = do
  id ← plan_operation read (tool_key row.call_index) request
  modify (changed (started id row))
  pure (is_mutation call.name || busy, started id row)
start_call read call busy row (err (syntax_error message)) = do
  after ← settle row (
      error_result call (concat ("Invalid " ∷ tool_text call.name ∷ " arguments: " ∷ message ∷ []))
        not_executed)
  pure (busy, after)
start_call read call busy row (err (contract c message)) = do
  after ← settle row (
      error_result call (concat ("Invalid " ∷ tool_text call.name ∷ " arguments: " ∷ message ∷ []))
        not_executed)
  pure (busy, after)
start_call read call busy row (err e) = throw e

-- after an error nothing more is started
unfoldable pub refuse_call : ToolCall → Bool → BatchRow → Turn (Bool × BatchRow)
refuse_call call busy row = do
  after ← settle row (
      error_result call "Not executed: a tool operation could not be safely completed."
        not_executed)
  pure (busy, after)

module _ (parse_json : String → Result Json) (over_limit : String → Bool) (config : PiConfig)
    (read : ReadContext) where
  unfoldable pub advance_call : Bool → BatchRow → ToolCall → Turn (Bool × BatchRow)
  advance_call busy row call = do
    failing ← gets (λ w. is_some w.state.last_error)
    if failing
        then refuse_call call busy row
        else if is_mutation call.name && busy
        then pure (busy, row)
        else start_call read call busy row
            (tool_request parse_json over_limit call config.machine_id config.cwd)

  unfoldable pub advance_row : List ToolCall → Bool → BatchRow → Turn (Bool × BatchRow)
  advance_row calls busy row =
      if is_queued row then lift (call_of calls row) >>= advance_call busy row else pure (busy, row)

  -- `for (const row of rows)`
  unfoldable pub advance_rows : List ToolCall → Bool → List BatchRow → Turn (List BatchRow)
  advance_rows calls busy [] = pure []
  advance_rows calls busy (row ∷ rows) = do
    step ← advance_row calls busy row
    rest ← advance_rows calls step.0 rows
    pure (step.1 ∷ rest)

-- `row.result_json = null; changed(ctx, row); s.next_tool_index++`
abbrev pub flushed : BatchRow → Work → Work
flushed row w =
    let after = changed (record row { result = none }) w in
    record after {
      state = record after.state { next_tool_index = after.state.next_tool_index + 1 };
    }

abbrev pub result_message : Json → Option String → Option String → ProposedMessage
result_message message run_id operation_id = record {
  message = message;
  run_id = run_id;
  in_context = true;
  event_id = none;
  operation_id = operation_id;
  response_metadata = none;
}

unfoldable pub flush_result : BatchRow → Option Json → Turn (Unit {0})
flush_result row none = throw (error "Missing unflushed tool result.")
flush_result row (some message) = do
  run_id ← gets (λ w. w.state.run_id)
  append (result_message message run_id row.operation_id)
  modify (flushed row)

unfoldable pub flush_row : BatchRow → Turn (Unit {0})
flush_row row = flush_result row row.result

-- `while (s.next_tool_index < rows.length)`, on the rows from the next one
unfoldable pub flush : List BatchRow → Turn (Unit {0})
flush [] = pure tt
flush (row ∷ rows) = let step = flush_row row >> flush rows in if is_done row then step else pure tt

unfoldable pub skip {ℓ} : {A : Type ℓ} → ℕ → List A → List A
skip zero rows = rows
skip (suc n) [] = []
skip (suc n) (row ∷ rows) = skip n rows

abbrev clear_batch : Work → Work
clear_batch w = record w { changes = record w.changes { clear_batch = true; batch = [] } }

module _ (config : PiConfig) (read : ReadContext) (t : Tables) where
  unfoldable pub end_run : Option PiError → Turn (Unit {0})
  end_run none = finish_turn config read t true
  end_run (some e) = modify (fail e)

  unfoldable pub end_batch : Turn (Unit {0})
  end_batch = do modify clear_batch; failing ← gets (λ w. w.state.last_error); end_run failing

  unfoldable pub flush_batch : List BatchRow → Turn (Unit {0})
  flush_batch rows = do
    next ← gets (λ w. w.state.next_tool_index)
    flush (skip next rows)
    after ← gets (λ w. w.state.next_tool_index)
    if after == length rows then end_batch else pure tt

  unfoldable pub advance_tools :
      (String → Result Json) → (String → Bool) → List ToolCall → List BatchRow → Turn (Unit {0})
  advance_tools parse_json over_limit calls rows = do
    busy ← lift (mutation_busy calls rows)
    after ← advance_rows parse_json over_limit config read calls busy rows
    flush_batch after
