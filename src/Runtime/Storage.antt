-- ===== src/Runtime/Storage.antt =====
-- packages/session-runtime/src/storage: the tables of the runtime. A table is the list of its rows
-- in the order of its primary key; a constraint that an insertion breaks is an error, and the
-- transaction around it is rolled back. A text column that holds JSON is the value itself.
use managed_agents.Common.{
  ℕ, ◌+◌, String, Bool, false, not, ◌&&◌, ◌||◌, Option, none, some, List, [], ◌∷◌, leb, ltb, ◌==◌,
  if◌then◌else◌, is_some, find, any, str_eq, Result, ok, ◌>>◌, require, refuse, contract, error,
  invalid_input,
}
use Prim.Native.Nat.{max}
use Prim.Native.String.{count}
use managed_agents.Contracts.Text.{utf8_bytes, utf16_length}
use managed_agents.Contracts.Json.{stringify}
use managed_agents.Contracts.Validation.{max_safe_integer}
use managed_agents.Contracts.Session.{SessionInfo}
use managed_agents.Runtime.Event.{Event, event_json}

abbrev pub max_inline_row_bytes : ℕ
max_inline_row_bytes = 1950000

pub record InboxRow : Type 0 where
  pub sequence : ℕ
  pub event_id : String
  pub received_at : ℕ
  pub event_hash : String
  pub event : Option Event
  pub consumed_at : Option ℕ
  pub retry_at : Option ℕ
  pub retry_count : ℕ
  pub last_error : Option String
  pub blocked : Bool

pub record PendingOperation : Type 0 where
  pub operation_id : String
  pub source_input_sequence : ℕ
  pub key : String
  pub provider : String
  pub job_id : String

-- the database of one session; `T` is the harness's own tables
pub record Store (T : Type 0) : Type 0 where
  pub session : Option SessionInfo
  pub inbox : List InboxRow
  pub pending : List PendingOperation
  pub tables : T

-- an input as the harness sees it
pub record Envelope : Type 0 where
  pub event_id : String
  pub sequence : ℕ
  pub received_at : ℕ
  pub event : Event

-- inbox.ts
unfoldable pub find_input : String → List InboxRow → Option InboxRow
find_input id rows = find (λ r. str_eq r.event_id id) rows

unfoldable pub is_waiting : InboxRow → Bool
is_waiting r = not (is_some r.consumed_at)

-- `WHERE consumed_at IS NULL ORDER BY sequence LIMIT 1`
unfoldable pub next_row : List InboxRow → Option InboxRow
next_row rows = find is_waiting rows

unfoldable pub envelope : InboxRow → Option Envelope
envelope r = elim r.event [
  | none ↦ none
  | some e ↦ some (record {
    event_id = r.event_id;
    sequence = r.sequence;
    received_at = r.received_at;
    event = e;
  })
]

unfoldable pub next_input : List InboxRow → Option Envelope
next_input rows = elim (next_row rows) [ none ↦ none | some r ↦ envelope r ]

unfoldable pub max_sequence : List InboxRow → ℕ
max_sequence [] = 0
max_sequence (r ∷ rows) = max r.sequence (max_sequence rows)

unfoldable pub allocate_sequence : List InboxRow → Result ℕ
allocate_sequence rows =
    require (leb (max_sequence rows + 1) max_safe_integer)
      (error "input sequence exhausted or invalid.")
    >> ok (max_sequence rows + 1)

-- a row in its place by primary key
unfoldable pub place_row : InboxRow → List InboxRow → List InboxRow
place_row r [] = r ∷ []
place_row r (s ∷ rows) = if ltb r.sequence s.sequence then r ∷ s ∷ rows else s ∷ place_row r rows

-- the primary key, the UNIQUE and the CHECK constraints of the table
unfoldable pub fits : InboxRow → List InboxRow → Bool
fits r rows =
    leb 1 r.sequence
    && leb r.sequence max_safe_integer
    && count r.event_hash == 64
    && not (any (λ s. s.sequence == r.sequence) rows)
    && not (any (λ s. str_eq s.event_id r.event_id) rows)

unfoldable pub new_row : Envelope → String → InboxRow
new_row input hash = record {
  sequence = input.sequence;
  event_id = input.event_id;
  received_at = input.received_at;
  event_hash = hash;
  event = some input.event;
  consumed_at = none;
  retry_at = none;
  retry_count = 0;
  last_error = none;
  blocked = false;
}

-- the size that an inline row may not pass
unfoldable pub row_bytes : Envelope → String → ℕ
row_bytes input hash =
    utf8_bytes (stringify (event_json input.event)) + utf8_bytes input.event_id + utf16_length hash

unfoldable pub insert_input : Envelope → String → List InboxRow → Result (List InboxRow)
insert_input input hash rows =
    refuse (ltb max_inline_row_bytes (row_bytes input hash))
      (contract invalid_input "Input exceeds the inline SQLite row limit.")
    >> require (fits (new_row input hash) rows) (error "SQLITE_CONSTRAINT")
    >> ok (place_row (new_row input hash) rows)

unfoldable pub consumed_row : ℕ → InboxRow → InboxRow
consumed_row now r = record r {
  consumed_at = some now;
  event = none;
  retry_at = none;
  retry_count = 0;
  last_error = none;
  blocked = false;
}

-- `UPDATE runtime_inbox SET … WHERE event_id = ? AND consumed_at IS NULL`
unfoldable pub update_waiting : (InboxRow → InboxRow) → String → List InboxRow → List InboxRow
update_waiting f id [] = []
update_waiting f id (r ∷ rows) =
    (if str_eq r.event_id id && is_waiting r then f r else r) ∷ update_waiting f id rows

unfoldable pub consume_input : String → ℕ → List InboxRow → List InboxRow
consume_input id now rows = update_waiting (consumed_row now) id rows

-- operations.ts
unfoldable pub find_pending : String → List PendingOperation → Option PendingOperation
find_pending id rows = find (λ p. str_eq p.operation_id id) rows

unfoldable pub insert_pending :
    PendingOperation → List InboxRow → List PendingOperation → Result (List PendingOperation)
insert_pending p inbox rows =
    require
      (not (any (λ q. str_eq q.operation_id p.operation_id) rows)
        && any (λ r. r.sequence == p.source_input_sequence) inbox)
      (error "SQLITE_CONSTRAINT")
    >> ok (p ∷ rows)

unfoldable pub delete_pending : String → List PendingOperation → List PendingOperation
delete_pending id [] = []
delete_pending id (p ∷ rows) =
    if str_eq p.operation_id id then delete_pending id rows else p ∷ delete_pending id rows

-- progress.ts
pub record ProcessingStatus : Type 0 where
  pub pending_event_id : Option String
  pub failures : ℕ
  pub retry_at : Option ℕ
  pub blocked : Bool
  pub last_error : Option String

status_of : Option InboxRow → ProcessingStatus
status_of none = record {
  pending_event_id = none;
  failures = 0;
  retry_at = none;
  blocked = false;
  last_error = none;
}
status_of (some r) = record {
  pending_event_id = some r.event_id;
  failures = r.retry_count;
  retry_at = r.retry_at;
  blocked = r.blocked;
  last_error = r.last_error;
}

unfoldable pub processing_status : List InboxRow → ProcessingStatus
unfolding status_of
processing_status rows = status_of (next_row rows)

unfoldable pub reset_row : InboxRow → InboxRow
reset_row r =
    if not (r.retry_count == 0) || r.blocked
    then record r { retry_at = none; retry_count = 0; blocked = false; last_error = none }
    else r

unfoldable pub reset_processing : List InboxRow → List InboxRow
reset_processing rows = elim (next_row rows) [
  | none ↦ rows
  | some r ↦ update_waiting reset_row r.event_id rows
]

unfoldable pub failed_row : ℕ → Bool → String → InboxRow → InboxRow
failed_row due blocked message r = record r {
  retry_count = r.retry_count + 1;
  retry_at = if blocked then none else some due;
  blocked = blocked;
  last_error = some message;
}

unfoldable pub fail_processing :
    ProcessingStatus → ℕ → Bool → String → List InboxRow → List InboxRow
fail_processing status due blocked message rows = elim status.pending_event_id [
  | none ↦ rows
  | some id ↦ update_waiting (failed_row due blocked message) id rows
]
