-- ===== src/Runtime/Replay.antt =====
-- The transactions of a session's database (runtime.ts, storage/progress.ts) keep what the inbox knows of
-- an event ID, also when the event itself is consumed.
use managed_agents.Runtime.Inbox.Known.{
  Knows, Knows-refl, Knows-trans, append-Knows, update_waiting-Knows, consumed_row-SameInput,
  fail_processing-Knows, reset_processing-Knows,
}
use managed_agents.Common.{
  ℕ, String, Bool, Option, some, none, List, ◌≡◌, sym, subst, ok, ok_eq, >>=-eq-ok,
}
use managed_agents.Contracts.Session.{SessionInfo, SubmitInputRequest}
use managed_agents.Contracts.Operation.{OperationCompletion, ProviderSubmitResult}
use managed_agents.Runtime.Event.{Event}
use managed_agents.Runtime.Storage.{
  Store, InboxRow, Envelope, ProcessingStatus, consumed_row, consume_input, reset_processing,
  fail_processing,
}
use managed_agents.Runtime.Harness.{HarnessDefinition}
use managed_agents.Runtime.Invariant.{IsStore, Pending-same}
use managed_agents.Runtime.Inbox.Updates.{
  fail_processing-IsInbox, fail_processing-any, reset_processing-IsInbox, reset_processing-any,
}
use managed_agents.Runtime.Insertion.{insert_next-Inserted}
use managed_agents.Runtime.Preservation.{
  admit_store-IsStore, insert_completion-IsStore, commit_store-IsStore, commit_store-Committed,
}
use managed_agents.Runtime.Growth.{settle_operations-Grows}
use managed_agents.Runtime.Core.State.{PreparedTransition}
use managed_agents.Runtime.Core.Insert.{insert_next}
use managed_agents.Runtime.Core.Admission.{
  InputReceipt, admit_store, admit_known, fresh_input, validated_input, repeated_input,
}
use managed_agents.Runtime.Core.Commit.{commit_store, consume}
use managed_agents.Runtime.Core.Completion.{insert_completion}

module _ {T C : Type 0} (sha256 : String → List ℕ) (h : HarnessDefinition T C) where
  -- The databases that transactions lead to: admissions, commits and completions, and the bookkeeping of
  -- failures.
  pub data Later (from : Store T) : Store T → Type 0 where
    unchanged : Later from from
    admitted :
        (now : ℕ) (info : SessionInfo) (request : SubmitInputRequest) (receipt : InputReceipt)
        {a b : Store T}
        → admit_store sha256 h now info request a ≡ ok (receipt, b)
        → Later from a
        → Later from b
    committed :
        (now : ℕ) (info : SessionInfo) (p : PreparedTransition C)
        (results : List (String × ProviderSubmitResult)) {a b : Store T}
        → commit_store sha256 now h info p results a ≡ ok b
        → Later from a
        → Later from b
    completed :
        (now : ℕ) (c : OperationCompletion) {a b : Store T}
        → insert_completion sha256 now c a ≡ ok b
        → Later from a
        → Later from b
    failed :
        (status : ProcessingStatus) (due : ℕ) (blocked : Bool) (message : String) {a : Store T}
        → Later from a
        → Later from (record a { inbox = fail_processing status due blocked message a.inbox })
    resumed :
        {a : Store T} → Later from a → Later from (record a { inbox = reset_processing a.inbox })

  module _ (id : String) where
    insert_next-Knows :
        (now : ℕ) (event_id : String) (event : Event) (hash : String) (store : Store T)
        (input : Envelope) (rows : List InboxRow)
        → IsStore store
        → insert_next now event_id event hash store.inbox ≡ ok (input, rows)
        → Knows id store.inbox rows
    insert_next-Knows now event_id event hash store input rows s e =
        subst (Knows id store.inbox)
          (sym
            (insert_next-Inserted now event_id event hash store.inbox s.inbox input rows e).grown)
          (append-Knows id store.inbox _)

    admit_known-Knows :
        (found : Option InboxRow) (now : ℕ) (info : SessionInfo) (request : SubmitInputRequest)
        (receipt : InputReceipt) (a b : Store T)
        → IsStore a
        → admit_known sha256 h now found info request a ≡ ok (receipt, b)
        → Knows id a.inbox b.inbox
    unfolding admit_known fresh_input
    admit_known-Knows none now info request receipt a b s e =
        let (_, valid, e₁) = >>=-eq-ok (validated_input sha256 h now request.event) _ e in
        let ((input, rows), inserted, done) = >>=-eq-ok (insert_next now _ _ _ a.inbox) _ e₁ in
        subst (λ x. Knows id a.inbox x.1.inbox) (ok_eq done)
          (insert_next-Knows now _ _ _ a input rows s inserted)
    admit_known-Knows (some row) now info request receipt a b s e =
        let (_, _, done) = >>=-eq-ok (repeated_input sha256 h now info request row) _ e in
        subst (λ x. Knows id a.inbox x.1.inbox) (ok_eq done) (Knows-refl id a.inbox)

    insert_completion-Knows :
        (now : ℕ) (c : OperationCompletion) (a b : Store T)
        → IsStore a
        → insert_completion sha256 now c a ≡ ok b
        → Knows id a.inbox b.inbox
    unfolding insert_completion
    insert_completion-Knows now c a b s e =
        let ((input, rows), inserted, done) = >>=-eq-ok (insert_next now _ _ _ a.inbox) _ e in
        subst (λ x. Knows id a.inbox x.inbox) (ok_eq done)
          (insert_next-Knows now _ _ _ a input rows s inserted)

    commit_store-Knows :
        (now : ℕ) (info : SessionInfo) (p : PreparedTransition C)
        (results : List (String × ProviderSubmitResult)) (a b : Store T)
        → IsStore a
        → commit_store sha256 now h info p results a ≡ ok b
        → Knows id a.inbox b.inbox
    unfolding consume consume_input
    commit_store-Knows now info p results a b s e =
        let c = commit_store-Committed sha256 now h info p results a b e in
        let g =
          settle_operations-Grows sha256 now p.input.sequence results p.operations
            (record a { tables = c.tables }) c.settled
            (record { inbox = s.inbox; pending = s.pending }) c.settled_lem in
        Knows-trans id a.inbox c.settled.inbox b.inbox
          (subst (Knows id a.inbox) (sym g.inbox) (append-Knows id a.inbox g.added))
          (subst (λ (t : Store T). Knows id c.settled.inbox t.inbox) (sym c.result)
            (update_waiting-Knows (consumed_row now) (consumed_row-SameInput now) p.input.event_id
              id c.settled.inbox))

    -- What transactions lead to is well formed, and knows the inputs that were known.
    pub Later-Knows :
        (from store : Store T)
        → IsStore from
        → Later from store
        → IsStore store × Knows id from.inbox store.inbox
    unfolding admit_store
    Later-Knows from _ s unchanged = (s, Knows-refl id from.inbox)
    Later-Knows from _ s (admitted now info request receipt {a} {b} e l) =
        let (t, k) = Later-Knows from a s l in
        (
          admit_store-IsStore sha256 now h info request a b receipt t e,
          Knows-trans id from.inbox a.inbox b.inbox k
              (admit_known-Knows _ now info request receipt a b t e),
        )
    Later-Knows from _ s (committed now info p results {a} {b} e l) =
        let (t, k) = Later-Knows from a s l in
        (
          commit_store-IsStore sha256 now h info p results a b t e,
          Knows-trans id from.inbox a.inbox b.inbox k
              (commit_store-Knows now info p results a b t e),
        )
    Later-Knows from _ s (completed now c {a} {b} e l) =
        let (t, k) = Later-Knows from a s l in
        (
          insert_completion-IsStore sha256 now c a b t e,
          Knows-trans id from.inbox a.inbox b.inbox k (insert_completion-Knows now c a b t e),
        )
    Later-Knows from _ s (failed status due blocked message {a} l) =
        let (t, k) = Later-Knows from a s l in
        (
          record {
            inbox = fail_processing-IsInbox status due blocked message a.inbox t.inbox;
            pending =
                Pending-same a.inbox (fail_processing status due blocked message a.inbox) a.pending
                  (λ n. fail_processing-any n status due blocked message a.inbox) t.pending;
          },
          Knows-trans id from.inbox a.inbox _ k
              (fail_processing-Knows id status due blocked message a.inbox),
        )
    Later-Knows from _ s (resumed {a} l) =
        let (t, k) = Later-Knows from a s l in
        (
          record {
            inbox = reset_processing-IsInbox a.inbox t.inbox;
            pending =
                Pending-same a.inbox (reset_processing a.inbox) a.pending
                  (λ n. reset_processing-any n a.inbox) t.pending;
          },
          Knows-trans id from.inbox a.inbox _ k (reset_processing-Knows id a.inbox),
        )
