-- ===== src/Runtime/Invariant.antt =====
-- Well-formed databases (storage/schema.ts).
use managed_agents.Common.{
  ℕ, String, true, false, not, ◌&&◌, List, [], ◌∷◌, ◌++◌, ◌≡◌, ◌≢◌, inl, inr, Bool-cases, subst,
  ◌∙◌, str_eq, eq_iff, arith, All, any, ◌==◌, ok,
}
use managed_agents.Runtime.Event.{Event, external, operation_completed}
use managed_agents.Runtime.Storage.{
  Store, InboxRow, PendingOperation, insert_pending, delete_pending, consume_input,
}
use managed_agents.Runtime.Inbox.Shape.{IsInbox}
use managed_agents.Runtime.Inbox.Updates.{consume_input-any}
use managed_agents.Runtime.Core.Commit.{close_operation}

-- no pending operation goes by this ID
abbrev pub Unused : String → List PendingOperation → Type 0
Unused id = All (λ p. p.operation_id ≢ id)

-- the pending operations have IDs of their own, and come from inputs of the inbox
abbrev pub Pending : List InboxRow → List PendingOperation → Type 0
Pending inbox [] = Unit
Pending inbox (p ∷ rows) =
    Unused p.operation_id rows
    × (any (λ r. r.sequence == p.source_input_sequence) inbox ≡ true)
    × Pending inbox rows

pub record IsStore {T : Type 0} (store : Store T) : Type 0 where
  pub inbox : IsInbox store.inbox
  pub pending : Pending store.inbox store.pending

-- Rows that are added keep every source.
any-append :
    (n : ℕ) (rows more : List InboxRow)
    → any (λ r. r.sequence == n) rows ≡ true
    → any (λ r. r.sequence == n) (rows ++ more) ≡ true
any-append n [] more h = absurd (ground arith)
any-append n (r ∷ rows) more h = ground (arith, any-append n rows more)

pub Pending-append :
    (rows more : List InboxRow) (pending : List PendingOperation)
    → Pending rows pending
    → Pending (rows ++ more) pending
Pending-append rows more [] p = tt
Pending-append rows more (q ∷ pending) (u, s, p) =
    (u, any-append q.source_input_sequence rows more s, Pending-append rows more pending p)

pub Pending-same :
    (rows rows' : List InboxRow) (pending : List PendingOperation)
    → ((n : ℕ) → any (λ r. r.sequence == n) rows' ≡ any (λ r. r.sequence == n) rows)
    → Pending rows pending
    → Pending rows' pending
Pending-same rows rows' [] k p = tt
Pending-same rows rows' (q ∷ pending) k (u, s, p) =
    (u, k q.source_input_sequence ∙ s, Pending-same rows rows' pending k p)

pub Pending-consume_input :
    (id : String) (now : ℕ) (rows : List InboxRow) (pending : List PendingOperation)
    → Pending rows pending
    → Pending (consume_input id now rows) pending
Pending-consume_input id now rows [] p = tt
Pending-consume_input id now rows (q ∷ pending) (u, s, p) = (
  u,
  consume_input-any id now rows q.source_input_sequence ∙ s,
  Pending-consume_input id now rows pending p,
)

Unused-delete :
    (key id : String) (pending : List PendingOperation)
    → Unused key pending
    → Unused key (delete_pending id pending)
unfolding delete_pending
Unused-delete key id [] u = tt
Unused-delete key id (p ∷ pending) (q, u) = elim (Bool-cases (str_eq p.operation_id id)) [
  | inl hit ↦ rw hit (Unused-delete key id pending u)
  | inr miss ↦ rw miss (q, Unused-delete key id pending u)
]

Pending-delete :
    (id : String) (rows : List InboxRow) (pending : List PendingOperation)
    → Pending rows pending
    → Pending rows (delete_pending id pending)
unfolding delete_pending
Pending-delete id rows [] p = tt
Pending-delete id rows (q ∷ pending) (u, s, p) = elim (Bool-cases (str_eq q.operation_id id)) [
  | inl hit ↦ rw hit (Pending-delete id rows pending p)
  | inr miss ↦
      rw miss (Unused-delete q.operation_id id pending u, s, Pending-delete id rows pending p)
]

pub close_operation-Pending :
    (e : Event) (rows : List InboxRow) (pending : List PendingOperation)
    → Pending rows pending
    → Pending rows (close_operation e pending)
unfolding close_operation
close_operation-Pending (external type payload) rows pending p = p
close_operation-Pending (operation_completed id provider job_id outcome) rows pending p =
    Pending-delete id rows pending p

any-Unused :
    (id : String) (pending : List PendingOperation)
    → any (λ q. str_eq q.operation_id id) pending ≡ false
    → Unused id pending
any-Unused id [] h = tt
any-Unused id (p ∷ pending) h =
    (ground (arith, eq_iff p.operation_id id), any-Unused id pending (ground arith))

pub insert_pending-Pending :
    (p : PendingOperation) (rows : List InboxRow) (pending pending' : List PendingOperation)
    → Pending rows pending
    → insert_pending p rows pending ≡ ok pending'
    → Pending rows pending'
unfolding insert_pending
insert_pending-Pending p rows pending pending' h e =
    let checked : not (any (λ q. str_eq q.operation_id p.operation_id) pending)
          && any (λ r. r.sequence == p.source_input_sequence) rows
        ≡ true =
      ground arith in
    let listed : p ∷ pending ≡ pending' = ground arith in
    subst (Pending rows) listed (any-Unused p.operation_id pending (ground arith), ground arith, h)
