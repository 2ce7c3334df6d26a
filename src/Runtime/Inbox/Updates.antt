-- ===== src/Runtime/Inbox/Updates.antt =====
-- The updates of rows that wait: consumption, and the retry bookkeeping of storage/progress.ts.
use managed_agents.Common.{
  ℕ, String, Bool, not, ◌&&◌, ◌||◌, none, some, List, [], ◌∷◌, ◌≡◌, refl, inl, inr, Bool-cases,
  Option-cases, if◌then◌else◌, str_eq, arith, any, ◌==◌,
}
use managed_agents.Runtime.Storage.{
  InboxRow, consumed_row, reset_row, failed_row, is_waiting, max_sequence, update_waiting,
  consume_input, reset_processing, fail_processing, ProcessingStatus, next_row,
}
use managed_agents.Runtime.Inbox.Shape.{IsInbox, Ascending, Distinct, Absent, Held, Keeps}

-- An update of a waiting row that leaves its identity alone, and its event in step with its
-- consumption.
pub record IsUpdate (f : InboxRow → InboxRow) : Type 0 where
  pub sequence : (r : InboxRow) → (f r).sequence ≡ r.sequence
  pub event_id : (r : InboxRow) → (f r).event_id ≡ r.event_id
  pub held : (r : InboxRow) → Keeps r.consumed_at r.event → Keeps (f r).consumed_at (f r).event

module _ (f : InboxRow → InboxRow) (u : IsUpdate f) (id : String) where
  update_one : InboxRow → InboxRow
  update_one r = if str_eq r.event_id id && is_waiting r then f r else r

  update_one-sequence : (r : InboxRow) → (update_one r).sequence ≡ r.sequence
  unfolding update_one
  update_one-sequence r = ground (arith, u.sequence r)

  update_one-event_id : (r : InboxRow) → (update_one r).event_id ≡ r.event_id
  unfolding update_one
  update_one-event_id r = ground (arith, u.event_id r)

  update_one-Keeps :
      (r : InboxRow)
      → Keeps r.consumed_at r.event
      → Keeps (update_one r).consumed_at (update_one r).event
  unfolding update_one
  update_one-Keeps r k = elim (Bool-cases (str_eq r.event_id id && is_waiting r)) [
    | inl hit ↦ rw hit (u.held r k)
    | inr miss ↦ rw miss k
  ]

  update-Ascending :
      (n : ℕ) (rows : List InboxRow) → Ascending n rows → Ascending n (update_waiting f id rows)
  unfolding update_waiting update_one
  update-Ascending n [] a = tt
  update-Ascending n (r ∷ rows) (p, q, a) =
      rw (update_one-sequence r) (p, q, update-Ascending r.sequence rows a)

  update-Absent :
      (key : String) (rows : List InboxRow)
      → Absent key rows
      → Absent key (update_waiting f id rows)
  unfolding update_waiting update_one
  update-Absent key [] a = tt
  update-Absent key (r ∷ rows) (p, a) = rw (update_one-event_id r) (p, update-Absent key rows a)

  update-Distinct : (rows : List InboxRow) → Distinct rows → Distinct (update_waiting f id rows)
  unfolding update_waiting update_one
  update-Distinct [] d = tt
  update-Distinct (r ∷ rows) (p, d) =
      rw (update_one-event_id r) (update-Absent r.event_id rows p, update-Distinct rows d)

  update-Held : (rows : List InboxRow) → Held rows → Held (update_waiting f id rows)
  unfolding update_waiting update_one
  update-Held [] h = tt
  update-Held (r ∷ rows) (p, h) = (update_one-Keeps r p, update-Held rows h)

  pub update-IsInbox : (rows : List InboxRow) → IsInbox rows → IsInbox (update_waiting f id rows)
  update-IsInbox rows i = record {
    ascending = update-Ascending 0 rows i.ascending;
    distinct = update-Distinct rows i.distinct;
    held = update-Held rows i.held;
  }

  pub update-max_sequence :
      (rows : List InboxRow) → max_sequence (update_waiting f id rows) ≡ max_sequence rows
  unfolding update_waiting update_one max_sequence
  update-max_sequence [] = refl
  update-max_sequence (r ∷ rows) = rw (update_one-sequence r, update-max_sequence rows)

  -- a sequence stands in the table after the update if it did before
  pub update-any :
      (n : ℕ) (rows : List InboxRow)
      → any (λ r. r.sequence == n) (update_waiting f id rows) ≡ any (λ r. r.sequence == n) rows
  unfolding update_waiting update_one
  update-any n [] = refl
  update-any n (r ∷ rows) = rw (update_one-sequence r, update-any n rows)

consumed_row-IsUpdate : (now : ℕ) → IsUpdate (consumed_row now)
unfolding consumed_row
consumed_row-IsUpdate now = record { sequence = λ r. refl; event_id = λ r. refl; held = λ r k. tt }

reset_row-IsUpdate : IsUpdate reset_row
unfolding reset_row
reset_row-IsUpdate = record {
  sequence = λ r. ground arith;
  event_id = λ r. ground arith;
  held = λ r k. elim (Bool-cases (not (r.retry_count == 0) || r.blocked)) [
    | inl hit ↦ rw hit k
    | inr miss ↦ rw miss k
  ];
}

failed_row-IsUpdate :
    (due : ℕ) (blocked : Bool) (message : String) → IsUpdate (failed_row due blocked message)
unfolding failed_row
failed_row-IsUpdate due blocked message = record {
  sequence = λ r. refl;
  event_id = λ r. refl;
  held = λ r k. k;
}

module _ (id : String) (now : ℕ) (rows : List InboxRow) where
  pub consume_input-IsInbox : IsInbox rows → IsInbox (consume_input id now rows)
  unfolding consume_input
  consume_input-IsInbox i = update-IsInbox (consumed_row now) (consumed_row-IsUpdate now) id rows i

  pub consume_input-max_sequence : max_sequence (consume_input id now rows) ≡ max_sequence rows
  unfolding consume_input
  consume_input-max_sequence =
      update-max_sequence (consumed_row now) (consumed_row-IsUpdate now) id rows

  pub consume_input-any :
      (n : ℕ)
      → any (λ r. r.sequence == n) (consume_input id now rows) ≡ any (λ r. r.sequence == n) rows
  unfolding consume_input
  consume_input-any n = update-any (consumed_row now) (consumed_row-IsUpdate now) id n rows

pub reset_processing-IsInbox :
    (rows : List InboxRow) → IsInbox rows → IsInbox (reset_processing rows)
unfolding reset_processing
reset_processing-IsInbox rows i =
    elim (next_row rows)
      as (λ o.
        IsInbox (elim o [ none ↦ rows | some r ↦ update_waiting reset_row r.event_id rows ])) [
          | none ↦ i
          | some r ↦ update-IsInbox reset_row reset_row-IsUpdate r.event_id rows i
        ]

pub fail_processing-IsInbox :
    (status : ProcessingStatus) (due : ℕ) (blocked : Bool) (message : String) (rows : List InboxRow)
    → IsInbox rows
    → IsInbox (fail_processing status due blocked message rows)
unfolding fail_processing
fail_processing-IsInbox status due blocked message rows i =
    elim (Option-cases status.pending_event_id) [
      | inl idle ↦ rw idle i
      | inr (id, busy) ↦ rw busy (
          update-IsInbox (failed_row due blocked message) (failed_row-IsUpdate due blocked message)
            id rows i)
    ]

pub fail_processing-any :
    (n : ℕ) (status : ProcessingStatus) (due : ℕ) (blocked : Bool) (message : String)
    (rows : List InboxRow)
    → any (λ r. r.sequence == n) (fail_processing status due blocked message rows)
      ≡ any (λ r. r.sequence == n) rows
unfolding fail_processing
fail_processing-any n status due blocked message rows =
    elim (Option-cases status.pending_event_id) [
      | inl idle ↦ rw idle refl
      | inr (id, busy) ↦ rw busy (
          update-any (failed_row due blocked message) (failed_row-IsUpdate due blocked message) id n
            rows)
    ]

pub reset_processing-any :
    (n : ℕ) (rows : List InboxRow)
    → any (λ r. r.sequence == n) (reset_processing rows) ≡ any (λ r. r.sequence == n) rows
unfolding reset_processing
reset_processing-any n rows =
    elim (next_row rows)
      as (λ o.
        any (λ r. r.sequence == n)
          (elim o [ none ↦ rows | some r ↦ update_waiting reset_row r.event_id rows ])
        ≡ any (λ r. r.sequence == n) rows) [
          | none ↦ refl
          | some r ↦ update-any reset_row reset_row-IsUpdate r.event_id n rows
        ]
