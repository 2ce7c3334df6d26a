-- ===== src/Runtime/Inbox/Known.antt =====
-- What the inbox knows of an event ID stays (storage/inbox.ts, storage/progress.ts).
use managed_agents.Common.{
  true, false, if◌then◌else◌, false, some_eq, ℕ, String, Bool, some, none, List, [], ◌∷◌, ◌++◌, ◌≡◌,
  refl, inl, inr, Bool-cases, Option-cases, subst, ◌∙◌, str_eq, ◌&&◌, arith,
}
use managed_agents.Runtime.Storage.{
  InboxRow, ProcessingStatus, find_input, update_waiting, consumed_row, reset_row, reset_processing,
  failed_row, fail_processing, is_waiting, next_row,
}

-- What a receipt is made of.
pub record SameInput (a b : InboxRow) : Type 0 where
  pub event_id_lem : b.event_id ≡ a.event_id
  pub sequence_lem : b.sequence ≡ a.sequence
  pub received_at_lem : b.received_at ≡ a.received_at
  pub event_hash_lem : b.event_hash ≡ a.event_hash

same_input : (r : InboxRow) → SameInput r r
same_input r = record {
  event_id_lem = refl;
  sequence_lem = refl;
  received_at_lem = refl;
  event_hash_lem = refl;
}

-- An input that the rows know is known to the later rows.
abbrev pub Knows : String → List InboxRow → List InboxRow → Type 0
Knows id rows later =
    (row : InboxRow)
    → find_input id rows ≡ some row
    → (row' : InboxRow) × (find_input id later ≡ some row') × SameInput row row'

pub Knows-refl : (id : String) (rows : List InboxRow) → Knows id rows rows
Knows-refl id rows row e = (row, e, same_input row)

pub Knows-trans : (id : String) (a b c : List InboxRow) → Knows id a b → Knows id b c → Knows id a c
Knows-trans id a b c f g row e =
    let (row₁, e₁, s₁) = f row e in
    let (row₂, e₂, s₂) = g row₁ e₁ in
    (
      row₂,
      e₂,
      record {
        event_id_lem = s₂.event_id_lem ∙ s₁.event_id_lem;
        sequence_lem = s₂.sequence_lem ∙ s₁.sequence_lem;
        received_at_lem = s₂.received_at_lem ∙ s₁.received_at_lem;
        event_hash_lem = s₂.event_hash_lem ∙ s₁.event_hash_lem;
      },
    )

find_input-concat :
    (id : String) (rows more : List InboxRow) (r : InboxRow)
    → find_input id rows ≡ some r
    → find_input id (rows ++ more) ≡ some r
unfolding find_input
find_input-concat id [] more r e = cc
find_input-concat id (s ∷ rows) more r e = ground (arith, find_input-concat id rows more r)

pub append-Knows : (id : String) (rows more : List InboxRow) → Knows id rows (rows ++ more)
append-Knows id rows more row e = (row, find_input-concat id rows more row e, same_input row)

cons-Knows :
    (id : String) (r r' : InboxRow) (rows rows' : List InboxRow)
    → SameInput r r'
    → Knows id rows rows'
    → Knows id (r ∷ rows) (r' ∷ rows')
unfolding find_input
cons-Knows id r r' rows rows' k later row e = elim (Bool-cases (str_eq r'.event_id id)) [
  | inl own ↦ rw own (
    r',
    refl,
    subst (λ x. SameInput x r')
        (some_eq (simp (subst (λ x. str_eq x id ≡ true) k.event_id_lem own) at e)) k,
  )
  | inr foreign ↦
      rw foreign (later row (simp (subst (λ x. str_eq x id ≡ false) k.event_id_lem foreign) at e))
]

module _ (f : InboxRow → InboxRow) (k : (r : InboxRow) → SameInput r (f r)) (key : String) where
  pub update_waiting-Knows :
      (id : String) (rows : List InboxRow) → Knows id rows (update_waiting f key rows)
  unfolding update_waiting
  update_waiting-Knows id [] = Knows-refl id []
  update_waiting-Knows id (r ∷ rows) =
      cons-Knows id r _ rows _ (updated (str_eq r.event_id key && is_waiting r))
        (update_waiting-Knows id rows)
    where
      updated : (waits : Bool) → SameInput r (if waits then f r else r)
      updated true = k r
      updated false = same_input r

pub consumed_row-SameInput : (now : ℕ) (r : InboxRow) → SameInput r (consumed_row now r)
unfolding consumed_row
consumed_row-SameInput now r = record {
  event_id_lem = refl;
  sequence_lem = refl;
  received_at_lem = refl;
  event_hash_lem = refl;
}

failed_row-SameInput :
    (due : ℕ) (blocked : Bool) (message : String) (r : InboxRow)
    → SameInput r (failed_row due blocked message r)
unfolding failed_row
failed_row-SameInput due blocked message r = record {
  event_id_lem = refl;
  sequence_lem = refl;
  received_at_lem = refl;
  event_hash_lem = refl;
}

reset_row-SameInput : (r : InboxRow) → SameInput r (reset_row r)
unfolding reset_row
reset_row-SameInput r = record {
  event_id_lem = ground arith;
  sequence_lem = ground arith;
  received_at_lem = ground arith;
  event_hash_lem = ground arith;
}

pub fail_processing-Knows :
    (id : String) (status : ProcessingStatus) (due : ℕ) (blocked : Bool) (message : String)
    (rows : List InboxRow)
    → Knows id rows (fail_processing status due blocked message rows)
unfolding fail_processing
fail_processing-Knows id status due blocked message rows =
    elim (Option-cases status.pending_event_id) [
      | inl idle ↦ rw idle (Knows-refl id rows)
      | inr (key, busy) ↦ rw busy (
          update_waiting-Knows (failed_row due blocked message)
            (failed_row-SameInput due blocked message) key id rows)
    ]

pub reset_processing-Knows :
    (id : String) (rows : List InboxRow) → Knows id rows (reset_processing rows)
unfolding reset_processing
reset_processing-Knows id rows =
    elim (next_row rows)
      as (λ o.
        Knows id rows
          (elim o [ none ↦ rows | some r ↦ update_waiting reset_row r.event_id rows ])) [
            | none ↦ Knows-refl id rows
            | some r ↦ update_waiting-Knows reset_row reset_row-SameInput r.event_id id rows
          ]
