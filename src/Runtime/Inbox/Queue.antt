-- ===== src/Runtime/Inbox/Queue.antt =====
-- The inbox seen as a first-in first-out queue of the inputs that wait.
use managed_agents.Common.{
  ℕ, String, Option, none, some, List, [], ◌∷◌, ◌++◌, ◌≡◌, ◌≢◌, refl, inl, inr, Option-cases, sym,
  subst, some_eq, ap, ◌∙◌, eq_iff, eq_refl, arith, head?,
}
use mathlib.Core.List.{append_assoc}
use managed_agents.Runtime.Storage.{
  update_waiting, consumed_row, InboxRow, Envelope, envelope, is_waiting, next_row, next_input,
  new_row, consume_input,
}
use managed_agents.Runtime.Inbox.Shape.{IsInbox, Distinct, Absent, Held}

abbrev pub inputs_of : Option ℕ → Option Envelope → List Envelope
inputs_of none (some e) = e ∷ []
inputs_of none none = []
inputs_of (some t) e = []

-- the inputs that wait, first the one that is processed next
unfoldable pub waiting : List InboxRow → List Envelope
waiting [] = []
waiting (r ∷ rows) = inputs_of r.consumed_at (envelope r) ++ waiting rows

pub waiting-concat :
    (rows more : List InboxRow) → waiting (rows ++ more) ≡ waiting rows ++ waiting more
unfolding waiting
waiting-concat [] more = refl
waiting-concat (r ∷ rows) more = simp (waiting-concat rows more, append_assoc)

pub waiting-append :
    (rows : List InboxRow) (input : Envelope) (hash : String)
    → waiting (rows ++ new_row input hash ∷ []) ≡ waiting rows ++ input ∷ []
unfolding waiting new_row envelope
waiting-append rows input hash = waiting-concat rows (new_row input hash ∷ [])

-- The input that the code takes next is the first of the queue.
pub next_input-head? : (rows : List InboxRow) → Held rows → next_input rows ≡ head? (waiting rows)
unfolding next_input next_row is_waiting waiting envelope
next_input-head? [] h = refl
next_input-head? (r ∷ rows) h = ground (arith, next_input-head? rows h.1)

consume_input-Absent :
    (id : String) (now : ℕ) (rows : List InboxRow)
    → Absent id rows
    → consume_input id now rows ≡ rows
unfolding consume_input update_waiting consumed_row
consume_input-Absent id now [] a = refl
consume_input-Absent id now (r ∷ rows) a =
    ground (arith, eq_iff r.event_id id, consume_input-Absent id now rows a.1)

next_row-nil : (r : InboxRow) → next_row [] ≢ some r
unfolding next_row
next_row-nil r e = cc

module _ (s : InboxRow) (rows : List InboxRow) where
  next_row-first : s.consumed_at ≡ none → next_row (s ∷ rows) ≡ some s
  unfolding next_row is_waiting
  next_row-first h = ground arith

  next_row-later : {t : ℕ} → s.consumed_at ≡ some t → next_row (s ∷ rows) ≡ next_row rows
  unfolding next_row is_waiting
  next_row-later h = ground arith

  waiting-first :
      s.consumed_at ≡ none → waiting (s ∷ rows) ≡ inputs_of none (envelope s) ++ waiting rows
  unfolding waiting
  waiting-first h = ground arith

  waiting-later : {t : ℕ} → s.consumed_at ≡ some t → waiting (s ∷ rows) ≡ waiting rows
  unfolding waiting
  waiting-later h = ground arith

  waiting-consume_first :
      (now : ℕ)
      → s.consumed_at ≡ none
      → Absent s.event_id rows
      → waiting (consume_input s.event_id now (s ∷ rows)) ≡ waiting rows
  unfolding waiting consume_input update_waiting consumed_row is_waiting
  waiting-consume_first now h a =
      ground (arith, eq_refl s.event_id, consume_input-Absent s.event_id now rows a)

  waiting-consume_later :
      {t : ℕ} (id : String) (now : ℕ)
      → s.consumed_at ≡ some t
      → waiting (consume_input id now (s ∷ rows)) ≡ waiting (consume_input id now rows)
  unfolding waiting consume_input update_waiting consumed_row is_waiting
  waiting-consume_later id now h = ground arith

waiting-next_row :
    (rows : List InboxRow) (r : InboxRow) (now : ℕ)
    → Distinct rows
    → next_row rows ≡ some r
    → waiting rows ≡ inputs_of none (envelope r) ++ waiting (consume_input r.event_id now rows)
waiting-next_row [] r now d e = absurd (next_row-nil r e)
waiting-next_row (s ∷ rows) r now d e = elim (Option-cases s.consumed_at) [
  | inl here ↦
      subst
        (λ q.
          waiting (s ∷ rows)
          ≡ inputs_of none (envelope q) ++ waiting (consume_input q.event_id now (s ∷ rows)))
        (some_eq (sym (next_row-first s rows here) ∙ e))
        (rw (waiting-first s rows here, waiting-consume_first s rows now here d.0))
  | inr (t, gone) ↦
      rw (waiting-later s rows gone, waiting-consume_later s rows r.event_id now gone)
        (waiting-next_row rows r now d.1 (sym (next_row-later s rows gone) ∙ e))
]

-- a waiting row of a well-formed inbox holds its event
pub next_row-envelope :
    (rows : List InboxRow) (r : InboxRow)
    → Held rows
    → next_row rows ≡ some r
    → (e : Envelope) × (envelope r ≡ some e) × (e.event_id ≡ r.event_id) × (e.sequence ≡ r.sequence)
unfolding next_row is_waiting envelope
next_row-envelope [] r h e = ground arith
next_row-envelope (s ∷ rows) r h e = elim (Option-cases s.consumed_at) [
  | inl here ↦ elim (Option-cases s.event) [
    | inl none_held ↦ absurd (ground arith)
    | inr (v, held) ↦ (
      record {
        event_id = s.event_id;
        sequence = s.sequence;
        received_at = s.received_at;
        event = v;
      },
      ground arith,
      ground arith,
      ground arith,
    )
  ]
  | inr (t, gone) ↦ next_row-envelope rows r h.1 (ground arith)
]

-- Consuming the first waiting input takes it off the queue, and leaves the others in their order.
pub waiting-consume_input :
    (rows : List InboxRow) (r : InboxRow) (now : ℕ)
    → IsInbox rows
    → next_row rows ≡ some r
    → (e : Envelope) × (waiting rows ≡ e ∷ waiting (consume_input r.event_id now rows))
      × (e.event_id ≡ r.event_id)
      × (e.sequence ≡ r.sequence)
waiting-consume_input rows r now i e =
    let (v, held, id, seq) = next_row-envelope rows r i.held e in
    (
      v,
      waiting-next_row rows r now i.distinct e
          ∙ ap (λ o. inputs_of none o ++ waiting (consume_input r.event_id now rows)) held,
      id,
      seq,
    )
