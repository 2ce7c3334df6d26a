-- ===== src/Runtime/Growth.antt =====
-- What the answers of a transition's submissions add to the database: rows behind all others.
use managed_agents.Common.{
  ℕ, String, true, Option, none, some, List, [], ◌∷◌, ◌++◌, ◌≡◌, refl, inl, inr, sym, subst, ap,
  ◌∙◌, eq_iff, arith, ok, ok_eq, >>=-eq-ok, All, All-append,
}
use mathlib.Core.List.{append-nil, append_assoc}
use managed_agents.Contracts.Session.{SessionInfo}
use managed_agents.Contracts.Operation.{
  OperationOutcome, ProviderSubmitResult, accepted, completed, rejected,
}
use managed_agents.Runtime.Event.{Event, external, operation_completed}
use managed_agents.Runtime.Storage.{
  Store, InboxRow, Envelope, PendingOperation, next_row, insert_pending, consume_input, envelope,
  new_row,
}
use managed_agents.Runtime.Harness.{HarnessDefinition}
use managed_agents.Runtime.Inbox.Queue.{waiting, waiting-consume_input, inputs_of, waiting-concat}
use managed_agents.Runtime.Invariant.{IsStore}
use managed_agents.Runtime.Preservation.{
  accept_operation-IsStore, settle_operation-IsStore, settle_operations-IsStore,
  commit_store-Committed,
}
use managed_agents.Runtime.Insertion.{insert_next-Inserted, queue_completion-cases}
use managed_agents.Runtime.Core.State.{PreparedOperation, PreparedTransition}
use managed_agents.Runtime.Core.Settle.{
  queue_completion, accept_operation, settle_operation, settle_operations,
}
use managed_agents.Runtime.Core.Commit.{commit_store, is_head, consume}

abbrev pub IsCompletion : Event → Type 0
IsCompletion (external type payload) = ⊥
IsCompletion (operation_completed id provider job_id outcome) = Unit

-- a row whose event, if it holds one, is a completion
abbrev pub HoldsCompletion : Option Event → Type 0
HoldsCompletion none = Unit
HoldsCompletion (some e) = IsCompletion e

-- The database with completions added behind its inbox, the pending operations aside.
pub record Grows {T : Type 0} (store store' : Store T) : Type 0 where
  pub session : store'.session ≡ store.session
  pub tables : store'.tables ≡ store.tables
  pub added : List InboxRow
  pub inbox : store'.inbox ≡ store.inbox ++ added
  pub completions : All (λ r. HoldsCompletion r.event) added

Grows-refl : {T : Type 0} (store : Store T) → Grows store store
Grows-refl store = record {
  session = refl;
  tables = refl;
  added = [];
  inbox = sym (append-nil store.inbox);
  completions = tt;
}

Grows-trans : {T : Type 0} {a b c : Store T} → Grows a b → Grows b c → Grows a c
Grows-trans {a} f g = record {
  session = g.session ∙ f.session;
  tables = g.tables ∙ f.tables;
  added = f.added ++ g.added;
  inbox = g.inbox ∙ ap (λ rows. rows ++ g.added) f.inbox ∙ append_assoc a.inbox f.added g.added;
  completions = All-append _ f.added g.added f.completions g.completions;
}

queued-completion :
    (input : Envelope) (hash : String) (e : Event)
    → input.event ≡ e
    → IsCompletion e
    → All (λ r. HoldsCompletion r.event) (new_row input hash ∷ [])
unfolding new_row
queued-completion input hash e same c = (subst IsCompletion (sym same) c, tt)

module _ {T : Type 0} (sha256 : String → List ℕ) (now : ℕ) where
  queue_completion-Grows :
      (id provider : String) (job_id : Option String) (outcome : OperationOutcome)
      (store store' : Store T)
      → IsStore store
      → queue_completion sha256 now id provider job_id outcome store ≡ ok store'
      → Grows store store'
  queue_completion-Grows id provider job_id outcome store store' s e =
      elim (queue_completion-cases sha256 now id provider job_id outcome store store' e) [
        | inl (row, found, hash, same) ↦ subst (Grows store) (sym same) (Grows-refl store)
        | inr (input, rows, missing, inserted, same) ↦ subst (Grows store) (sym same) (record {
          session = refl;
          tables = refl;
          added = _;
          inbox = (insert_next-Inserted now _ _ _ store.inbox s.inbox input rows inserted).grown;
          completions =
              queued-completion _ _ _
                (insert_next-Inserted now _ _ _ store.inbox s.inbox input rows inserted).event_lem
                tt;
        })
      ]

  accept_operation-Grows :
      (sequence : ℕ) (op : PreparedOperation) (job_id : String) (store store' : Store T)
      → accept_operation sha256 now sequence op job_id store ≡ ok store'
      → Grows store store'
  unfolding accept_operation
  accept_operation-Grows sequence op job_id store store' e =
      let p : PendingOperation = record {
        operation_id = op.operation_id;
        source_input_sequence = sequence;
        key = op.key;
        provider = op.request.provider;
        job_id = job_id;
      } in
      let (pending, added, same) = >>=-eq-ok (insert_pending p store.inbox store.pending) _ e in
      subst (Grows store) (ok_eq same) (record {
        session = refl;
        tables = refl;
        added = [];
        inbox = sym (append-nil store.inbox);
        completions = tt;
      })

  settle_operation-Grows :
      (sequence : ℕ) (op : PreparedOperation) (answer : Option ProviderSubmitResult)
      (store store' : Store T)
      → IsStore store
      → settle_operation sha256 now sequence op answer store ≡ ok store'
      → Grows store store'
  unfolding settle_operation
  settle_operation-Grows sequence op none store store' s e = cc
  settle_operation-Grows sequence op (some (rejected f)) store store' s e =
      queue_completion-Grows _ _ _ _ store store' s e
  settle_operation-Grows sequence op (some (accepted job_id)) store store' s e =
      accept_operation-Grows sequence op job_id store store' e
  settle_operation-Grows sequence op (some (completed job_id outcome)) store store' s e =
      let (mid, first, later) =
        >>=-eq-ok (accept_operation sha256 now sequence op job_id store) _ e in
      Grows-trans (accept_operation-Grows sequence op job_id store mid first) (
        queue_completion-Grows _ _ _ _ mid store'
          (accept_operation-IsStore sha256 now sequence op job_id store mid s first) later)

  pub settle_operations-Grows :
      (sequence : ℕ) (results : List (String × ProviderSubmitResult)) (ops : List PreparedOperation)
      (store store' : Store T)
      → IsStore store
      → settle_operations sha256 now sequence results ops store ≡ ok store'
      → Grows store store'
  unfolding settle_operations
  settle_operations-Grows sequence results [] store store' s e =
      subst (Grows store) (ok_eq e) (Grows-refl store)
  settle_operations-Grows sequence results (op ∷ ops) store store' s e =
      let (mid, first, later) = >>=-eq-ok (settle_operation sha256 now sequence op _ store) _ e in
      Grows-trans (settle_operation-Grows sequence op _ store mid s first) (
        settle_operations-Grows sequence results ops mid store'
          (settle_operation-IsStore sha256 now sequence op _ store mid s first) later)

next_row-concat :
    (rows more : List InboxRow) (r : InboxRow)
    → next_row rows ≡ some r
    → next_row (rows ++ more) ≡ some r
unfolding next_row
next_row-concat [] more r e = cc
next_row-concat (s ∷ rows) more r e = ground (arith, next_row-concat rows more r)

is_head-row :
    (found : Option InboxRow) (id : String)
    → is_head found id ≡ true
    → (r : InboxRow) × (found ≡ some r) × (r.event_id ≡ id)
unfolding is_head
is_head-row none id h = cc
is_head-row (some r) id h = (r, refl, (eq_iff r.event_id id).0 h)

tail_eq : {x y : Envelope} {xs ys : List Envelope} → x ∷ xs ≡ y ∷ ys → xs ≡ ys
tail_eq e = cc

row-IsCompletion :
    (at : Option ℕ) (e : Option Event) (make : Event → Envelope)
    → ((v : Event) → (make v).event ≡ v)
    → HoldsCompletion e
    → All
        (λ (i : Envelope). IsCompletion i.event)
        (inputs_of at (elim e [ none ↦ none | some v ↦ some (make v) ]))
row-IsCompletion (some t) e make same c = tt
row-IsCompletion none none make same c = tt
row-IsCompletion none (some v) make same c = (subst IsCompletion (sym (same v)) c, tt)

waiting-completions :
    (rows : List InboxRow)
    → All (λ r. HoldsCompletion r.event) rows
    → All (λ (e : Envelope). IsCompletion e.event) (waiting rows)
unfolding waiting envelope
waiting-completions [] c = tt
waiting-completions (r ∷ rows) (p, c) =
    All-append _ _ (waiting rows) (row-IsCompletion r.consumed_at r.event _ (λ v. refl) p)
      (waiting-completions rows c)

module _ {T C : Type 0} (sha256 : String → List ℕ) (now : ℕ) (h : HarnessDefinition T C) where
  -- A commit takes exactly the first waiting input off the queue, which is the one that was
  -- prepared; the others keep their order, and only completions come behind them.
  pub commit_store-queue :
      (info : SessionInfo) (p : PreparedTransition C)
      (results : List (String × ProviderSubmitResult)) (store store' : Store T)
      → IsStore store
      → commit_store sha256 now h info p results store ≡ ok store'
      → (first : Envelope) × (rest added : List Envelope) × (waiting store.inbox ≡ first ∷ rest)
        × (waiting store'.inbox ≡ rest ++ added)
        × (first.event_id ≡ p.input.event_id)
        × All (λ e. IsCompletion e.event) added
  unfolding consume
  commit_store-queue info p results store store' s e =
      let c = commit_store-Committed sha256 now h info p results store store' e in
      let start : Store T = record store { tables = c.tables } in
      let ok_start : IsStore start = record { inbox = s.inbox; pending = s.pending } in
      let g =
        settle_operations-Grows sha256 now p.input.sequence results p.operations start c.settled
          ok_start c.settled_lem in
      let t =
        settle_operations-IsStore sha256 now p.input.sequence results p.operations start c.settled
          ok_start c.settled_lem in
      let (r, found, id) = is_head-row (next_row store.inbox) p.input.event_id c.at_head in
      let (first, before, first_id, _) = waiting-consume_input store.inbox r now s.inbox found in
      let (first', after, _, _) = waiting-consume_input c.settled.inbox r now t.inbox (
        subst (λ rows. next_row rows ≡ some r) (sym g.inbox)
          (next_row-concat store.inbox g.added r found)) in
      (
        first,
        waiting (consume_input r.event_id now store.inbox),
        waiting g.added,
        before,
        ap (λ (t : Store T). waiting t.inbox) c.result
            ∙ ap (λ key. waiting (consume_input key now c.settled.inbox)) (sym id)
            ∙ tail_eq (
                sym after
                ∙ ap waiting g.inbox
                ∙ waiting-concat store.inbox g.added
                ∙ ap (λ queue. queue ++ waiting g.added) before),
        first_id ∙ id,
        waiting-completions g.added g.completions,
      )
