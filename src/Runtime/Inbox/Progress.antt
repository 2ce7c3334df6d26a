-- ===== src/Runtime/Inbox/Progress.antt =====
-- The bookkeeping of failures and the queue (storage/progress.ts).
use managed_agents.Common.{
  ℕ, String, Bool, not, ◌&&◌, ◌||◌, Option, none, some, List, [], ◌∷◌, ◌≡◌, refl, inl, inr,
  Bool-cases, str_eq, ap, ◌==◌, head?, sym, ◌∙◌,
}
use managed_agents.Runtime.Storage.{
  InboxRow, envelope, update_waiting, failed_row, reset_row, fail_processing, reset_processing,
  ProcessingStatus, next_row, next_input, is_waiting,
}
use managed_agents.Runtime.Inbox.Shape.{IsInbox}
use managed_agents.Runtime.Inbox.Updates.{fail_processing-IsInbox}
use managed_agents.Runtime.Inbox.Queue.{waiting, inputs_of, next_input-head?}

update_waiting-waiting :
    (f : InboxRow → InboxRow) (id : String) (rows : List InboxRow)
    → ((r : InboxRow)
        → inputs_of (f r).consumed_at (envelope (f r)) ≡ inputs_of r.consumed_at (envelope r))
    → waiting (update_waiting f id rows) ≡ waiting rows
unfolding waiting update_waiting
update_waiting-waiting f id [] k = refl
update_waiting-waiting f id (r ∷ rows) k =
    elim (Bool-cases (str_eq r.event_id id && is_waiting r)) [
      | inl hit ↦ rw (hit, k r, update_waiting-waiting f id rows k) refl
      | inr miss ↦ rw (miss, update_waiting-waiting f id rows k) refl
    ]

reset_row-inputs :
    (r : InboxRow)
    → inputs_of (reset_row r).consumed_at (envelope (reset_row r))
      ≡ inputs_of r.consumed_at (envelope r)
unfolding reset_row envelope
reset_row-inputs r = elim (Bool-cases (not (r.retry_count == 0) || r.blocked)) [
  | inl reset ↦ rw reset refl
  | inr kept ↦ rw kept refl
]

fail_id-waiting :
    (id : Option String) (due : ℕ) (blocked : Bool) (message : String) (rows : List InboxRow)
    → waiting (elim id [
      | none ↦ rows
      | some key ↦ update_waiting (failed_row due blocked message) key rows
    ])
      ≡ waiting rows
unfolding failed_row envelope
fail_id-waiting none due blocked message rows = refl
fail_id-waiting (some id) due blocked message rows =
    update_waiting-waiting (failed_row due blocked message) id rows λ r. refl

reset_found-waiting :
    (found : Option InboxRow) (rows : List InboxRow)
    → waiting (elim found [ none ↦ rows | some r ↦ update_waiting reset_row r.event_id rows ])
      ≡ waiting rows
reset_found-waiting none rows = refl
reset_found-waiting (some r) rows =
    update_waiting-waiting reset_row r.event_id rows reset_row-inputs

-- Neither a recorded failure nor a resumption takes an input off the queue, adds one or moves one.
pub progress-waiting :
    (status : ProcessingStatus) (due : ℕ) (blocked : Bool) (message : String) (rows : List InboxRow)
    → (waiting (fail_processing status due blocked message rows) ≡ waiting rows)
      × (waiting (reset_processing rows) ≡ waiting rows)
unfolding fail_processing reset_processing
progress-waiting status due blocked message rows = (
  fail_id-waiting status.pending_event_id due blocked message rows,
  reset_found-waiting (next_row rows) rows,
)

-- so the first input stays the first
pub fail_processing-next_input :
    (status : ProcessingStatus) (due : ℕ) (blocked : Bool) (message : String) (rows : List InboxRow)
    → IsInbox rows
    → next_input (fail_processing status due blocked message rows) ≡ next_input rows
fail_processing-next_input status due blocked message rows i =
    next_input-head? (fail_processing status due blocked message rows)
      (fail_processing-IsInbox status due blocked message rows i).held
    ∙ ap head? (progress-waiting status due blocked message rows).0
    ∙ sym (next_input-head? rows i.held)
