-- ===== src/Runtime/Preservation.antt =====
-- Well-formed databases and the transactions of the runtime (runtime.ts).
use managed_agents.Runtime.Insertion.{insert_next-Inserted, queue_completion-cases}
use managed_agents.Common.{
  ℕ, String, true, Option, none, some, List, [], ◌∷◌, ◌≡◌, inl, inr, Option-cases, sym, subst, ap,
  ◌∙◌, arith, ok, ok_eq, require-eq-ok, >>=-eq-ok,
}
use managed_agents.Contracts.Session.{SessionInfo, SubmitInputRequest, InitializeSessionRequest}
use managed_agents.Contracts.Operation.{
  OperationOutcome, OperationCompletion, ProviderSubmitResult, accepted, completed, rejected,
}
use managed_agents.Runtime.Event.{Event}
use managed_agents.Runtime.Storage.{
  Store, InboxRow, Envelope, PendingOperation, insert_pending, find_input, next_row,
}
use managed_agents.Runtime.Harness.{HarnessDefinition}
use managed_agents.Runtime.Inbox.Updates.{consume_input-IsInbox}
use managed_agents.Runtime.Invariant.{
  IsStore, Pending-append, Pending-consume_input, close_operation-Pending, insert_pending-Pending,
}
use managed_agents.Runtime.Core.State.{PreparedOperation, PreparedTransition}
use managed_agents.Runtime.Core.Insert.{timestamp, insert_next}
use managed_agents.Runtime.Core.Admission.{
  InputReceipt, fresh_input, admit_known, validated_input, admit_store, repeated_input,
}
use managed_agents.Runtime.Core.Settle.{
  queue_completion, queue_known, queue_new, accept_operation, settle_operation, settle_operations,
}
use managed_agents.Runtime.Core.Commit.{commit_store, is_head, consume}
use managed_agents.Runtime.Core.Completion.{insert_completion}
use managed_agents.Runtime.Core.Initialize.{create_session}

module _ {T : Type 0} (store : Store T) (s : IsStore store) where
  pub insert_next-IsStore :
      (now : ℕ) (event_id : String) (event : Event) (hash : String) (input : Envelope)
      (rows : List InboxRow)
      → insert_next now event_id event hash store.inbox ≡ ok (input, rows)
      → IsStore (record store { inbox = rows })
  insert_next-IsStore now event_id event hash input rows e =
      let new = insert_next-Inserted now event_id event hash store.inbox s.inbox input rows e in
      record {
        inbox = new.inbox;
        pending = rw (new.grown) (Pending-append store.inbox _ store.pending s.pending);
      }

  pub queue_completion-IsStore :
      (sha256 : String → List ℕ) (now : ℕ) (id provider : String) (job_id : Option String)
      (outcome : OperationOutcome) (store' : Store T)
      → queue_completion sha256 now id provider job_id outcome store ≡ ok store'
      → IsStore store'
  unfolding queue_completion queue_known queue_new
  queue_completion-IsStore sha256 now id provider job_id outcome store' e =
      elim (queue_completion-cases sha256 now id provider job_id outcome store store' e) [
        | inl (row, found, hash, same) ↦ rw same s
        | inr (input, rows, missing, inserted, same) ↦
            rw same (insert_next-IsStore now _ _ _ input rows inserted)
      ]

module _ {T : Type 0} (sha256 : String → List ℕ) (now : ℕ) where
  pub accept_operation-IsStore :
      (sequence : ℕ) (op : PreparedOperation) (job_id : String) (store store' : Store T)
      → IsStore store
      → accept_operation sha256 now sequence op job_id store ≡ ok store'
      → IsStore store'
  unfolding accept_operation
  accept_operation-IsStore sequence op job_id store store' s e =
      let p : PendingOperation = record {
        operation_id = op.operation_id;
        source_input_sequence = sequence;
        key = op.key;
        provider = op.request.provider;
        job_id = job_id;
      } in
      let (pending, added, same) = >>=-eq-ok (insert_pending p store.inbox store.pending) _ e in
      subst IsStore (ok_eq same) (record {
        inbox = s.inbox;
        pending = insert_pending-Pending p store.inbox store.pending pending s.pending added;
      })

  pub settle_operation-IsStore :
      (sequence : ℕ) (op : PreparedOperation) (answer : Option ProviderSubmitResult)
      (store store' : Store T)
      → IsStore store
      → settle_operation sha256 now sequence op answer store ≡ ok store'
      → IsStore store'
  unfolding settle_operation
  settle_operation-IsStore sequence op none store store' s e = cc
  settle_operation-IsStore sequence op (some (rejected f)) store store' s e =
      queue_completion-IsStore store s sha256 now _ _ _ _ store' e
  settle_operation-IsStore sequence op (some (accepted job_id)) store store' s e =
      accept_operation-IsStore sequence op job_id store store' s e
  settle_operation-IsStore sequence op (some (completed job_id outcome)) store store' s e =
      let (mid, first, later) =
        >>=-eq-ok (accept_operation sha256 now sequence op job_id store) _ e in
      queue_completion-IsStore mid (accept_operation-IsStore sequence op job_id store mid s first)
        sha256 now _ _ _ _ store' later

  pub settle_operations-IsStore :
      (sequence : ℕ) (results : List (String × ProviderSubmitResult)) (ops : List PreparedOperation)
      (store store' : Store T)
      → IsStore store
      → settle_operations sha256 now sequence results ops store ≡ ok store'
      → IsStore store'
  unfolding settle_operations
  settle_operations-IsStore sequence results [] store store' s e = subst IsStore (ok_eq e) s
  settle_operations-IsStore sequence results (op ∷ ops) store store' s e =
      let (mid, first, later) = >>=-eq-ok (settle_operation sha256 now sequence op _ store) _ e in
      settle_operations-IsStore sequence results ops mid store'
        (settle_operation-IsStore sequence op _ store mid s first) later

  pub insert_completion-IsStore :
      (c : OperationCompletion) (store store' : Store T)
      → IsStore store
      → insert_completion sha256 now c store ≡ ok store'
      → IsStore store'
  unfolding insert_completion
  insert_completion-IsStore c store store' s e =
      let ((input, rows), inserted, same) = >>=-eq-ok (insert_next now _ _ _ store.inbox) _ e in
      subst IsStore (ok_eq same) (insert_next-IsStore store s now _ _ _ input rows inserted)

pub record Committed {T C : Type 0} (sha256 : String → List ℕ) (now : ℕ) (h : HarnessDefinition T C)
    (info : SessionInfo) (p : PreparedTransition C) (results : List (String × ProviderSubmitResult))
    (store store' : Store T) : Type 0 where
  pub at_head : is_head (next_row store.inbox) p.input.event_id ≡ true
  pub tables : T
  pub applied : h.apply p.changes info store.tables ≡ ok tables
  pub settled : Store T
  pub settled_lem :
      settle_operations sha256 now p.input.sequence results p.operations
        (record store { tables = tables })
      ≡ ok settled
  pub result : store' ≡ consume p now settled

timestamp-eq-ok : (now at : ℕ) → timestamp now ≡ ok at → now ≡ at
unfolding timestamp
timestamp-eq-ok now at e = ground arith

module _ {T C : Type 0} (sha256 : String → List ℕ) (now : ℕ) (h : HarnessDefinition T C) where
  -- The parts of a commit that goes through.
  pub commit_store-Committed :
      (info : SessionInfo) (p : PreparedTransition C)
      (results : List (String × ProviderSubmitResult)) (store store' : Store T)
      → commit_store sha256 now h info p results store ≡ ok store'
      → Committed sha256 now h info p results store store'
  unfolding commit_store
  commit_store-Committed info p results store store' e =
      let (head, e₁) = require-eq-ok (is_head (next_row store.inbox) p.input.event_id) _ _ e in
      let (tables, applied, e₂) = >>=-eq-ok (h.apply p.changes info store.tables) _ e₁ in
      let (settled, done, e₃) =
        >>=-eq-ok
          (settle_operations sha256 now p.input.sequence results p.operations
            (record store { tables = tables }))
          _ e₂ in
      let (at, dated, same) = >>=-eq-ok (timestamp now) _ e₃ in
      record {
        at_head = head;
        tables = tables;
        applied = applied;
        settled = settled;
        settled_lem = done;
        result =
            sym (ok_eq same) ∙ ap (λ t. consume p t settled) (sym (timestamp-eq-ok now at dated));
      }

  -- A commit keeps the database well formed.
  pub commit_store-IsStore :
      (info : SessionInfo) (p : PreparedTransition C)
      (results : List (String × ProviderSubmitResult)) (store store' : Store T)
      → IsStore store
      → commit_store sha256 now h info p results store ≡ ok store'
      → IsStore store'
  unfolding consume
  commit_store-IsStore info p results store store' s e =
      let c = commit_store-Committed info p results store store' e in
      let t =
        settle_operations-IsStore sha256 now p.input.sequence results p.operations
          (record store { tables = c.tables }) c.settled
          (record { inbox = s.inbox; pending = s.pending }) c.settled_lem in
      subst IsStore (sym c.result) (record {
        inbox = consume_input-IsInbox p.input.event_id now c.settled.inbox t.inbox;
        pending =
            Pending-consume_input p.input.event_id now c.settled.inbox _
              (close_operation-Pending p.input.event c.settled.inbox c.settled.pending t.pending);
      })

  fresh_input-IsStore :
      (info : SessionInfo) (request : SubmitInputRequest) (store store' : Store T)
      (receipt : InputReceipt)
      → IsStore store
      → fresh_input sha256 h now info request store ≡ ok (receipt, store')
      → IsStore store'
  unfolding fresh_input
  fresh_input-IsStore info request store store' receipt s e =
      let (_, valid, e₁) = >>=-eq-ok (validated_input sha256 h now request.event) _ e in
      let ((input, rows), inserted, same) = >>=-eq-ok (insert_next now _ _ _ store.inbox) _ e₁ in
      subst IsStore (ap (λ x. x.1) (ok_eq same))
        (insert_next-IsStore store s now _ _ _ input rows inserted)

  -- So does the admission of an external input.
  pub admit_store-IsStore :
      (info : SessionInfo) (request : SubmitInputRequest) (store store' : Store T)
      (receipt : InputReceipt)
      → IsStore store
      → admit_store sha256 h now info request store ≡ ok (receipt, store')
      → IsStore store'
  unfolding admit_store admit_known
  admit_store-IsStore info request store store' receipt s e =
      elim (Option-cases (find_input request.event_id store.inbox)) [
        | inl missing ↦
            fresh_input-IsStore info request store store' receipt s (rw (missing, admit_store) at e)
        | inr (row, found) ↦
            let (receipt', repeated, same) =
              >>=-eq-ok (repeated_input sha256 h now info request row) _
                (rw (found, admit_store) at e) in
            subst IsStore (ap (λ x. x.1) (ok_eq same)) s
      ]

  pub create_session-IsStore :
      (request : InitializeSessionRequest) (store store' : Store T) (info : SessionInfo)
      → IsStore store
      → create_session h now request store ≡ ok (info, store')
      → IsStore store'
  unfolding create_session
  create_session-IsStore request store store' info s e =
      let (config, parsed, e₁) = >>=-eq-ok (h.parse_config request.config) _ e in
      let (at, dated, e₂) = >>=-eq-ok (timestamp now) _ e₁ in
      let (tables, filled, same) = >>=-eq-ok (h.initialize _ store.tables) _ e₂ in
      subst IsStore (ap (λ x. x.1) (ok_eq same)) (record { inbox = s.inbox; pending = s.pending })
