-- ===== src/MinimalBash/State.antt =====
-- The tables of packages/harness-minimal-bash/src/schema.ts and the functions of state.ts over them.
use managed_agents.Common.{
  ℕ, ◌+◌, String, Bool, false, Option, none, some, List, length, select, ltb, Result, ok, err,
  ◌>>=◌, error,
}
use managed_agents.Pi.Tables.{
  PiError, Reference, MessageRow, PendingRow, Page, page_rows, first_rows, cursor_after,
  message_size, pending_size,
}

pub data Phase : Type 0 where
  idle llm bash cancelled failed : Phase

pub record State : Type 0 where
  pub phase : Phase
  pub run_id : Option String
  pub active_operation_id : Option String
  pub active_assistant_sequence : Option Reference
  pub next_tool_index : ℕ
  pub turn_count : ℕ
  pub cancel_requested : Bool
  pub last_error : Option PiError

pub record Tables : Type 0 where
  pub state : Option State
  pub messages : List MessageRow
  pub pending : List PendingRow

abbrev pub initial_state : State
initial_state = record {
  phase = idle;
  run_id = none;
  active_operation_id = none;
  active_assistant_sequence = none;
  next_tool_index = 0;
  turn_count = 0;
  cancel_requested = false;
  last_error = none;
}

unfoldable pub read_state : Tables → Result State
read_state t = elim t.state [ none ↦ err (error "Expected one row.") | some s ↦ ok s ]

-- `readMinimalBashState`
pub record StateView : Type 0 where
  pub phase : Phase
  pub run_id : Option String
  pub active_operation_id : Option String
  pub turn_count : ℕ
  pub cancel_requested : Bool
  pub last_error : Option PiError
  pub pending_message_count : ℕ

unfoldable pub read_bash_state : Tables → Result StateView
read_bash_state t = do
  s ← read_state t
  ok (record {
    phase = s.phase;
    run_id = s.run_id;
    active_operation_id = s.active_operation_id;
    turn_count = s.turn_count;
    cancel_requested = s.cancel_requested;
    last_error = s.last_error;
    pending_message_count = length t.pending;
  })

pub record Listing (A : Type 0) : Type 0 where
  pub messages : List A
  pub next_cursor : Option ℕ
  pub state : StateView

unfoldable pub listing : {A : Type 0} → (A → ℕ) → Page A → Tables → Result (Listing A)
listing sequence page t = do
  next_cursor ← cursor_after sequence page
  state ← read_bash_state t
  ok (record { messages = page.rows; next_cursor = next_cursor; state = state })

unfoldable pub read_messages : Tables → ℕ → ℕ → Result (Listing MessageRow)
read_messages t after limit =
    listing (λ row. row.sequence)
      (page_rows limit message_size
        (first_rows (limit + 1) (select (λ row. ltb after row.sequence) t.messages)))
      t

unfoldable pub read_pending_messages : Tables → ℕ → ℕ → Result (Listing PendingRow)
read_pending_messages t after limit =
    listing (λ row. row.input_sequence)
      (page_rows limit pending_size
        (first_rows (limit + 1) (select (λ row. ltb after row.input_sequence) t.pending)))
      t
