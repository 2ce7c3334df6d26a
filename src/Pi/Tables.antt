-- ===== src/Pi/Tables.antt =====
-- The tables of packages/harness-pi-no-compaction/src/schema.ts and the functions of state.ts over
-- them. A table is the list of its rows by primary key, the pending messages by input sequence; a
-- text column that holds JSON is the value itself.
use managed_agents.Common.{
  ℕ, zero, suc, ◌+◌, String, Bool, true, false, ◌&&◌, ◌||◌, Option, none, some, if◌then◌else◌, List,
  [], ◌∷◌, select, length, leb, ltb, ◌==◌, Result, ok, err, ◌>>=◌, error,
}
use Prim.Native.Nat.{max}
use managed_agents.Contracts.Text.{utf8_bytes}
use managed_agents.Contracts.Json.{Json, stringify}

pub data Phase : Type 0 where
  idle llm tools cancelled failed : Phase

-- `last_error_json`, and the exception HarnessFailure
pub record PiError : Type 0 where
  pub code : String
  pub message : String

-- an assistant message: a row of the table, or (a negative number in the code) the n-th message that
-- this transition proposes
pub data Reference : Type 0 where
  stored : ℕ → Reference
  proposed : ℕ → Reference

pub record State : Type 0 where
  pub phase : Phase
  pub run_id : Option String
  pub active_operation_id : Option String
  pub active_assistant_sequence : Option Reference
  pub next_tool_index : ℕ
  pub turn_count : ℕ
  pub cancel_requested : Bool
  pub last_error : Option PiError

pub data BatchStatus : Type 0 where
  queued active done : BatchStatus

pub record BatchRow : Type 0 where
  pub call_index : ℕ
  pub status : BatchStatus
  pub operation_id : Option String
  pub result : Option Json

pub record MessageRow : Type 0 where
  pub sequence : ℕ
  pub message : Json
  pub in_context : Bool
  pub run_id : Option String
  pub source_event_id : Option String
  pub source_operation_id : Option String
  pub response_metadata : Option Json

pub record PendingRow : Type 0 where
  pub event_id : String
  pub input_sequence : ℕ
  pub message : Json

pub record Tables : Type 0 where
  pub state : Option State
  pub messages : List MessageRow
  pub pending : List PendingRow
  pub batch : List BatchRow

abbrev pub initial_state : State
initial_state = record {
  phase = idle;
  run_id = none;
  active_operation_id = none;
  active_assistant_sequence = none;
  next_tool_index = 0;
  turn_count = 0;
  cancel_requested = false;
  last_error = none;
}

-- `readState`: the one row
unfoldable pub read_state : Tables → Result State
read_state t = elim t.state [ none ↦ err (error "Expected one row.") | some s ↦ ok s ]

abbrev pub is_queued : BatchRow → Bool
is_queued r = elim r.status [ queued ↦ true | _ ↦ false ]

abbrev pub is_active : BatchRow → Bool
is_active r = elim r.status [ active ↦ true | _ ↦ false ]

abbrev pub is_done : BatchRow → Bool
is_done r = elim r.status [ done ↦ true | _ ↦ false ]

-- `readPiNoCompactionState`
pub record StateView : Type 0 where
  pub phase : Phase
  pub run_id : Option String
  pub active_operation_id : Option String
  pub turn_count : ℕ
  pub cancel_requested : Bool
  pub last_error : Option PiError
  pub active_tool_count : ℕ
  pub pending_message_count : ℕ

unfoldable pub read_pi_state : Tables → Result StateView
read_pi_state t = do
  s ← read_state t
  ok (record {
    phase = s.phase;
    run_id = s.run_id;
    active_operation_id = s.active_operation_id;
    turn_count = s.turn_count;
    cancel_requested = s.cancel_requested;
    last_error = s.last_error;
    active_tool_count = length (select is_active t.batch);
    pending_message_count = length t.pending;
  })

abbrev pub page_json_bytes : ℕ
page_json_bytes = 2097152

pub record Page (A : Type 0) : Type 0 where
  pub rows : List A
  pub has_more : Bool

module _ {A : Type 0} (limit : ℕ) (size : A → ℕ) where
  -- the loop of `pageRows`, with the number of rows taken and their bytes so far
  unfoldable pub page_from : ℕ → ℕ → List A → Page A
  page_from taken bytes [] = record { rows = []; has_more = false }
  page_from taken bytes (row ∷ cursor) =
      let rest = page_from (suc taken) (bytes + size row) cursor in
      if leb limit taken || (ltb 0 taken && ltb page_json_bytes (bytes + size row))
      then record { rows = []; has_more = true }
      else record { rows = row ∷ rest.rows; has_more = rest.has_more }

  unfoldable pub page_rows : List A → Page A
  page_rows cursor = page_from 0 0 cursor

-- `LIMIT n`
unfoldable pub first_rows {ℓ} : {A : Type ℓ} → ℕ → List A → List A
first_rows zero rows = []
first_rows (suc n) [] = []
first_rows (suc n) (row ∷ rows) = row ∷ first_rows n rows

unfoldable pub last_of {ℓ} : {A : Type ℓ} → List A → Option A
last_of [] = none
last_of (x ∷ []) = some x
last_of (x ∷ y ∷ rest) = last_of (y ∷ rest)

unfoldable pub json_bytes : Option Json → ℕ
json_bytes none = utf8_bytes "null"
json_bytes (some value) = utf8_bytes (stringify value)

pub record Listing (A : Type 0) : Type 0 where
  pub messages : List A
  pub next_cursor : Option ℕ
  pub state : StateView

-- `page.rows.at(-1)!.sequence`, undefined where there is no row
unfoldable pub cursor_after : {A : Type 0} → (A → ℕ) → Page A → Result (Option ℕ)
cursor_after sequence page =
    if page.has_more
    then elim (last_of page.rows) [
      | none ↦ err (error "Cannot read properties of undefined")
      | some row ↦ ok (some (sequence row))
    ]
    else ok none

unfoldable pub listing : {A : Type 0} → (A → ℕ) → Page A → Tables → Result (Listing A)
listing sequence page t = do
  next_cursor ← cursor_after sequence page
  state ← read_pi_state t
  ok (record { messages = page.rows; next_cursor = next_cursor; state = state })

abbrev pub message_size : MessageRow → ℕ
message_size row = utf8_bytes (stringify row.message) + json_bytes row.response_metadata

unfoldable pub read_messages : Tables → ℕ → ℕ → Result (Listing MessageRow)
read_messages t after limit =
    listing (λ row. row.sequence)
      (page_rows limit message_size
        (first_rows (limit + 1) (select (λ row. ltb after row.sequence) t.messages)))
      t

abbrev pub pending_size : PendingRow → ℕ
pending_size row = utf8_bytes (stringify row.message)

unfoldable pub read_pending_messages : Tables → ℕ → ℕ → Result (Listing PendingRow)
read_pending_messages t after limit =
    listing (λ row. row.input_sequence)
      (page_rows limit pending_size
        (first_rows (limit + 1) (select (λ row. ltb after row.input_sequence) t.pending)))
      t

-- the next key of the messages
unfoldable pub last_sequence : List MessageRow → ℕ
last_sequence [] = 0
last_sequence (row ∷ rows) = max row.sequence (last_sequence rows)

-- a row with the key of another takes its place; `INSERT ... ON CONFLICT(call_index) DO UPDATE`
unfoldable pub put_row : BatchRow → List BatchRow → List BatchRow
put_row row [] = row ∷ []
put_row row (other ∷ rows) =
    if other.call_index == row.call_index then row ∷ rows else other ∷ put_row row rows
