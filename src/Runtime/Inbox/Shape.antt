-- ===== src/Runtime/Inbox/Shape.antt =====
-- Well-formed inboxes, and the insertions that keep them so (storage/inbox.ts).
use managed_agents.Common.{
  ℕ, ◌+◌, ◌≤◌, ◌<◌, String, true, false, Option, none, some, List, [], ◌∷◌, ◌++◌, ◌≡◌, ◌≢◌, refl,
  sym, ◌∙◌, any, str_eq, eq_iff, arith, All, ok,
}
use managed_agents.Contracts.Validation.{max_safe_integer}
use managed_agents.Runtime.Event.{Event}
use managed_agents.Runtime.Storage.{
  InboxRow, Envelope, max_sequence, allocate_sequence, place_row, fits, new_row, insert_input,
}

-- The rows stand in ascending order of their sequences, which lie above `n` and are safe integers.
abbrev pub Ascending : ℕ → List InboxRow → Type 0
Ascending n [] = Unit
Ascending n (r ∷ rows) =
    (n < r.sequence) × (r.sequence ≤ max_safe_integer) × Ascending r.sequence rows

abbrev pub Absent : String → List InboxRow → Type 0
Absent id = All (λ r. r.event_id ≢ id)

-- No event ID stands in two rows.
abbrev pub Distinct : List InboxRow → Type 0
Distinct [] = Unit
Distinct (r ∷ rows) = Absent r.event_id rows × Distinct rows

-- A row holds its event exactly until it is consumed.
abbrev pub Keeps : Option ℕ → Option Event → Type 0
Keeps none (some e) = Unit
Keeps (some t) none = Unit
Keeps none none = ⊥
Keeps (some t) (some e) = ⊥

abbrev pub Held : List InboxRow → Type 0
Held = All (λ r. Keeps r.consumed_at r.event)

pub record IsInbox (rows : List InboxRow) : Type 0 where
  pub ascending : Ascending 0 rows
  pub distinct : Distinct rows
  pub held : Held rows

pub place_row-append :
    (n : ℕ) (r : InboxRow) (rows : List InboxRow)
    → Ascending n rows
    → max_sequence rows < r.sequence
    → place_row r rows ≡ rows ++ r ∷ []
unfolding place_row max_sequence
place_row-append n r [] a h = refl
place_row-append n r (s ∷ rows) a h = ground (arith, place_row-append s.sequence r rows)

Ascending-concat :
    (n : ℕ) (r : InboxRow) (rows : List InboxRow)
    → Ascending n rows
    → n < r.sequence
    → max_sequence rows < r.sequence
    → r.sequence ≤ max_safe_integer
    → Ascending n (rows ++ r ∷ [])
unfolding max_sequence
Ascending-concat n r [] a h m b = (h, b, tt)
Ascending-concat n r (s ∷ rows) (p, q, a) h m b =
    (p, q, Ascending-concat s.sequence r rows a (omega arith) (omega arith) b)

Absent-concat :
    (id : String) (r : InboxRow) (rows : List InboxRow)
    → Absent id rows
    → r.event_id ≢ id
    → Absent id (rows ++ r ∷ [])
Absent-concat id r [] a h = (h, tt)
Absent-concat id r (s ∷ rows) (p, a) h = (p, Absent-concat id r rows a h)

Distinct-concat :
    (r : InboxRow) (rows : List InboxRow)
    → Distinct rows
    → Absent r.event_id rows
    → Distinct (rows ++ r ∷ [])
Distinct-concat r [] d a = (tt, tt)
Distinct-concat r (s ∷ rows) (p, d) (q, a) =
    (Absent-concat s.event_id r rows p (λ e. q (sym e)), Distinct-concat r rows d a)

Held-concat :
    (r : InboxRow) (rows : List InboxRow)
    → Held rows
    → Keeps r.consumed_at r.event
    → Held (rows ++ r ∷ [])
Held-concat r [] h k = (k, tt)
Held-concat r (s ∷ rows) (p, h) k = (p, Held-concat r rows h k)

any-Absent :
    (id : String) (rows : List InboxRow)
    → any (λ s. str_eq s.event_id id) rows ≡ false
    → Absent id rows
any-Absent id [] h = tt
any-Absent id (s ∷ rows) h =
    (ground (arith, eq_iff s.event_id id), any-Absent id rows (ground arith))

pub allocate_sequence-eq-ok :
    (rows : List InboxRow) (n : ℕ)
    → allocate_sequence rows ≡ ok n
    → (n ≡ max_sequence rows + 1) × (n ≤ max_safe_integer)
unfolding allocate_sequence
allocate_sequence-eq-ok rows n e = ground arith

-- What a successful insertion has checked, and what it returns.
pub insert_input-eq-ok :
    (input : Envelope) (hash : String) (rows rows' : List InboxRow)
    → insert_input input hash rows ≡ ok rows'
    → (fits (new_row input hash) rows ≡ true) × (rows' ≡ place_row (new_row input hash) rows)
unfolding insert_input
insert_input-eq-ok input hash rows rows' e = ground arith

pub fits-Absent :
    (r : InboxRow) (rows : List InboxRow) → fits r rows ≡ true → Absent r.event_id rows
unfolding fits
fits-Absent r rows h = any-Absent r.event_id rows (ground arith)

-- An insertion behind the last sequence appends the new row.
pub insert_input-append :
    (input : Envelope) (hash : String) (rows rows' : List InboxRow)
    → IsInbox rows
    → max_sequence rows < input.sequence
    → insert_input input hash rows ≡ ok rows'
    → rows' ≡ rows ++ new_row input hash ∷ []
unfolding new_row
insert_input-append input hash rows rows' i m e =
    (insert_input-eq-ok input hash rows rows' e).1 ∙ place_row-append 0 _ rows i.ascending m

fits-le : (r : InboxRow) (rows : List InboxRow) → fits r rows ≡ true → r.sequence ≤ max_safe_integer
unfolding fits
fits-le r rows h = ground arith

pub insert_input-IsInbox :
    (input : Envelope) (hash : String) (rows rows' : List InboxRow)
    → IsInbox rows
    → max_sequence rows < input.sequence
    → insert_input input hash rows ≡ ok rows'
    → IsInbox rows'
unfolding new_row
insert_input-IsInbox input hash rows rows' i m e =
    let fit = (insert_input-eq-ok input hash rows rows' e).0 in
    rw (insert_input-append input hash rows rows' i m e) (record {
      ascending = Ascending-concat 0 _ rows i.ascending (omega arith) m (fits-le _ rows fit);
      distinct = Distinct-concat _ rows i.distinct (fits-Absent _ rows fit);
      held = Held-concat _ rows i.held tt;
    })
