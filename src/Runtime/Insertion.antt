-- ===== src/Runtime/Insertion.antt =====
-- How packages/session-runtime/src/runtime.ts adds an input to the inbox.
use managed_agents.Common.{
  ◌⊎◌, ℕ, suc, ◌<◌, String, Option, none, some, List, [], ◌∷◌, ◌++◌, ◌≡◌, refl, inl, inr,
  Option-cases, sym, eq_iff, arith, ok, ok_eq, >>=-eq-ok,
}
use managed_agents.Contracts.Operation.{OperationOutcome}
use managed_agents.Runtime.Event.{Event, operation_completed, input_hash}
use managed_agents.Runtime.Storage.{
  Store, InboxRow, Envelope, allocate_sequence, insert_input, max_sequence, find_input, new_row,
}
use managed_agents.Runtime.Inbox.Shape.{
  IsInbox, Absent, allocate_sequence-eq-ok, insert_input-IsInbox, insert_input-append,
  insert_input-eq-ok, fits-Absent,
}
use managed_agents.Runtime.Core.Insert.{timestamp, insert_next}
use managed_agents.Runtime.Core.Settle.{
  queue_completion, queue_known, queue_new, completion_event_id,
}

-- What a new input is, and how the inbox grows by it.
pub record Inserted (now : ℕ) (event_id : String) (event : Event) (hash : String)
    (rows : List InboxRow) (input : Envelope) (rows' : List InboxRow) : Type 0 where
  pub event_id_lem : input.event_id ≡ event_id
  pub event_lem : input.event ≡ event
  pub received_at_lem : input.received_at ≡ now
  pub sequence_lem : input.sequence ≡ suc (max_sequence rows)
  pub absent : Absent event_id rows
  pub grown : rows' ≡ rows ++ new_row input hash ∷ []
  pub inbox : IsInbox rows'

module _ (now : ℕ) (event_id : String) (event : Event) (hash : String) (rows : List InboxRow)
    (i : IsInbox rows) where
  abbrev input_at : ℕ → Envelope
  input_at n = record { event_id = event_id; sequence = n; received_at = now; event = event }

  input_at-Inserted :
      (n : ℕ) (inbox : List InboxRow)
      → allocate_sequence rows ≡ ok n
      → insert_input (input_at n) hash rows ≡ ok inbox
      → Inserted now event_id event hash rows (input_at n) inbox
  unfolding new_row
  input_at-Inserted n inbox a e =
      let next = (allocate_sequence-eq-ok rows n a).0 in
      let above : max_sequence rows < n = omega arith in
      record {
        event_id_lem = refl;
        event_lem = refl;
        received_at_lem = refl;
        sequence_lem = omega arith;
        absent = fits-Absent _ rows (insert_input-eq-ok (input_at n) hash rows inbox e).0;
        grown = insert_input-append (input_at n) hash rows inbox i above e;
        inbox = insert_input-IsInbox (input_at n) hash rows inbox i above e;
      }

  insert_next_parts :
      (input : Envelope) (rows' : List InboxRow)
      → insert_next now event_id event hash rows ≡ ok (input, rows')
      → (n : ℕ) × (allocate_sequence rows ≡ ok n)
        × (insert_input (input_at n) hash rows ≡ ok rows')
        × (input ≡ input_at n)
  unfolding insert_next timestamp
  insert_next_parts input rows' e = ground arith

  pub insert_next-Inserted :
      (input : Envelope) (rows' : List InboxRow)
      → insert_next now event_id event hash rows ≡ ok (input, rows')
      → Inserted now event_id event hash rows input rows'
  insert_next-Inserted input rows' e =
      let (n, a, e', same) = insert_next_parts input rows' e in
      rw same (input_at-Inserted n rows' a e')

-- A queued completion is known already, or it is a new input.
module _ {T : Type 0} (sha256 : String → List ℕ) (now : ℕ) (id provider : String)
    (job_id : Option String) (outcome : OperationOutcome) (store store' : Store T) where
  abbrev event : Event
  event = operation_completed id provider job_id outcome

  queue_new_parts :
      find_input (completion_event_id id) store.inbox ≡ none
      → queue_completion sha256 now id provider job_id outcome store ≡ ok store'
      → (input : Envelope) × (rows : List InboxRow) × (find_input
            (completion_event_id id)
            store.inbox
          ≡ none)
        × (insert_next now (completion_event_id id) event (input_hash sha256 event) store.inbox
            ≡ ok (input, rows))
        × (store' ≡ record store { inbox = rows })
  unfolding queue_completion queue_known queue_new
  queue_new_parts missing e =
      let ((input, rows), inserted, same) =
        >>=-eq-ok
          (insert_next now (completion_event_id id) event (input_hash sha256 event) store.inbox) _
          (rw (missing, queue_completion) at e) in
      (input, rows, missing, inserted, sym (ok_eq same))

  pub queue_completion-cases :
      queue_completion sha256 now id provider job_id outcome store ≡ ok store'
      → ((row : InboxRow) × (find_input (completion_event_id id) store.inbox ≡ some row)
          × (row.event_hash ≡ input_hash sha256 event)
          × (store' ≡ store))
        ⊎ ((input : Envelope) × (rows : List InboxRow) × (find_input
                (completion_event_id id)
                store.inbox
              ≡ none)
            × (insert_next now (completion_event_id id) event (input_hash sha256 event) store.inbox
                ≡ ok (input, rows))
            × (store' ≡ record store { inbox = rows }))
  unfolding queue_completion queue_known queue_new
  queue_completion-cases e = elim (Option-cases (find_input (completion_event_id id) store.inbox)) [
    | inr (row, found) ↦
        inl (
          row,
          found,
          ground (arith, eq_iff row.event_hash (input_hash sha256 event)),
          ground arith,
        )
    | inl missing ↦ inr (queue_new_parts missing e)
  ]
