-- ===== src/Pi/Harness.antt =====
-- `apply` of packages/harness-pi-no-compaction/src/harness.ts, with `appendMessage` of state.ts, and the
-- harness as the runtime takes it.
use managed_agents.Common.{
  ℕ, ◌+◌, ◌-◌, String, Bool, false, not, ◌&&◌, ◌||◌, Option, none, some, is_some, if◌then◌else◌,
  List, [], ◌∷◌, ◌++◌, get_elem?, any, ltb, ◌==◌, str_eq, Result, ok, ◌>>=◌, ◌>>◌, refuse, error,
}
use managed_agents.Contracts.Json.{Json}
use managed_agents.Contracts.Llm.{llm_operation}
use managed_agents.Contracts.ToolExecution.{Url}
use managed_agents.Runtime.Storage.{Envelope}
use managed_agents.Runtime.Harness.{TransitionPlan, ReadContext, HarnessDefinition}
use managed_agents.Pi.Config.{
  pi_identity, parse_pi_config, config_json, stored_config, parse_pi_input,
}
use managed_agents.Pi.Tools.{tool_operations}
use managed_agents.Pi.Tables.{
  State, Tables, initial_state, read_state, Reference, stored, proposed, BatchRow, MessageRow,
  PendingRow, last_sequence,
}
use managed_agents.Pi.Work.{ProposedMessage, Changes}
use managed_agents.Pi.Handle.{react_all}

unfoldable pub append_message : ProposedMessage → List MessageRow → MessageRow
append_message p rows = record {
  sequence = last_sequence rows + 1;
  message = p.message;
  in_context = p.in_context;
  run_id = p.run_id;
  source_event_id = p.event_id;
  source_operation_id = p.operation_id;
  response_metadata = p.response_metadata;
}

-- the messages with those that are proposed, and the sequences of these
unfoldable pub insert_messages : List ProposedMessage → List MessageRow → List MessageRow × List ℕ
insert_messages [] rows = (rows, [])
insert_messages (p ∷ rest) rows =
    let row = append_message p rows in
    let (after, sequences) = insert_messages rest (rows ++ row ∷ []) in
    (after, row.sequence ∷ sequences)

-- the rows of the batch by the key, where `operation_id` is UNIQUE
unfoldable pub place_batch_row : BatchRow → List BatchRow → List BatchRow
place_batch_row row [] = row ∷ []
place_batch_row row (other ∷ rows) =
    if ltb row.call_index other.call_index
    then row ∷ other ∷ rows
    else if row.call_index == other.call_index
    then row ∷ rows
    else other ∷ place_batch_row row rows

abbrev same_operation : Option String → Option String → Bool
same_operation (some a) (some b) = str_eq a b
same_operation _ _ = false

unfoldable pub is_taken : BatchRow → List BatchRow → Bool
is_taken row rows =
    any
      (λ other.
        not (other.call_index == row.call_index)
        && same_operation other.operation_id row.operation_id)
      rows

unfoldable pub upsert_batch : List BatchRow → List BatchRow → Result (List BatchRow)
upsert_batch [] rows = ok rows
upsert_batch (row ∷ rest) rows =
    refuse (is_taken row rows) (error "SQLITE_CONSTRAINT")
    >> upsert_batch rest (place_batch_row row rows)

-- the pending messages by their sequence, which is UNIQUE as the event is
unfoldable pub place_pending : PendingRow → List PendingRow → List PendingRow
place_pending row [] = row ∷ []
place_pending row (other ∷ rows) =
    if ltb row.input_sequence other.input_sequence
    then row ∷ other ∷ rows
    else other ∷ place_pending row rows

unfoldable pub insert_pending : Option PendingRow → List PendingRow → Result (List PendingRow)
insert_pending none rows = ok rows
insert_pending (some row) rows =
    refuse
      (any
        (λ other. str_eq other.event_id row.event_id || other.input_sequence == row.input_sequence)
        rows)
      (error "SQLITE_CONSTRAINT")
    >> ok (place_pending row rows)

-- a reference to a proposed message becomes its sequence
unfoldable pub resolve : List ℕ → Option Reference → Option Reference
resolve sequences (some (proposed n)) = elim (get_elem? sequences (n - 1)) [
  | none ↦ none
  | some sequence ↦ some (stored sequence)
]
resolve sequences reference = reference

-- `save`, an UPDATE of the one row
unfoldable pub save : Option State → List ℕ → Option State → Option State
save none sequences row = row
save (some s) sequences none = none
save (some s) sequences (some before) =
    some (record s { active_assistant_sequence = resolve sequences s.active_assistant_sequence })

unfoldable pub apply_batch : Changes → List BatchRow → Result (List BatchRow)
apply_batch changes rows = if changes.clear_batch then ok [] else upsert_batch changes.batch rows

unfoldable pub apply_changes : Changes → Tables → Result Tables
apply_changes changes t = do
  batch ← apply_batch changes t.batch
  let inserted = insert_messages changes.messages t.messages
  pending ← insert_pending changes.pending (if changes.promote_pending then [] else t.pending)
  ok (record {
    state = save changes.state inserted.1 t.state;
    messages = inserted.0;
    pending = pending;
    batch = batch;
  })

unfoldable pub initialize_tables : Tables → Result Tables
initialize_tables t = do
  refuse (is_some t.state) (error "SQLITE_CONSTRAINT")
  ok (record t { state = some initial_state })

abbrev pub no_tables : Tables
no_tables = record { state = none; messages = []; pending = []; batch = [] }

module _ (parse_json : String → Result Json) (over_limit : String → Bool)
    (parse_url : String → Option Url) where
  unfoldable pub handle : Envelope → ReadContext → Tables → Result (TransitionPlan Changes)
  handle input read t = do
    config ← stored_config read.session.config
    s ← read_state t
    react_all parse_json over_limit config read t s input

  -- `piNoCompactionHarness`
  unfoldable pub pi : HarnessDefinition Tables Changes
  pi = record {
    identity = pi_identity;
    operations = llm_operation ∷ tool_operations;
    parse_config = λ value. parse_pi_config parse_url value >>= λ config. ok (config_json config);
    parse_input = parse_pi_input;
    initialize = λ session t. initialize_tables t;
    handle = handle;
    apply = λ changes session t. apply_changes changes t;
  }
