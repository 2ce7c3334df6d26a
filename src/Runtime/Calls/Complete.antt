-- ===== src/Runtime/Calls/Complete.antt =====
-- `acceptCompletion` and the invariant of a runtime (runtime.ts).
use managed_agents.Common.{
  ℕ, String, Option, none, some, List, ◌≡◌, refl, inl, inr, Bool-cases, subst, Result, ok, err,
  ok_eq, >>=-eq-ok,
}
use managed_agents.Contracts.Json.{Json}
use managed_agents.Contracts.Operation.{OperationCompletion, parse_operation_completion}
use managed_agents.Runtime.Event.{input_hash}
use managed_agents.Runtime.Storage.{Store, InboxRow, PendingOperation, find_input}
use managed_agents.Runtime.Harness.{HarnessDefinition}
use managed_agents.Runtime.Coherence.{
  IsRuntime, Maintains, Maintains-continue, exclusive-Maintains, require_session-Maintains,
  insert_next-IsRuntime,
}
use managed_agents.Runtime.Core.State.{SessionRuntime, require_session}
use managed_agents.Runtime.Core.Insert.{insert_next}
use managed_agents.Runtime.Core.Prepare.{prepare}
use managed_agents.Runtime.Core.Settle.{completion_event_id}
use managed_agents.Runtime.Core.Completion.{
  Admission, completion_event, insert_completion, keep_completion, commit_completion,
  check_completion, check_identity, derived_sequence, check_known, check_pending, check_proposed,
  accept_checked, accept_completion,
}
use managed_agents.Runtime.Calls.Prepare.{prepare-Maintains}

module _ {T C : Type 0} (sha256 : String → List ℕ) (h : HarnessDefinition T C) where
  check_proposed-Maintains :
      (c : OperationCompletion) (sequence : ℕ)
      → Maintains IsRuntime (check_proposed sha256 h c sequence)
  unfolding check_proposed
  check_proposed-Maintains c sequence = record {
    at = λ r i.
        (Maintains-continue IsRuntime (prepare sha256 h r).0 _ (λ p. record { at = λ s k. k })).at
          (prepare sha256 h r).1 ((prepare-Maintains sha256 h).at r i);
  }

  check_pending-Maintains :
      (found : Option PendingOperation) (c : OperationCompletion) (sequence : ℕ)
      → Maintains IsRuntime (check_pending sha256 h found c sequence)
  unfolding check_pending
  check_pending-Maintains none c sequence = check_proposed-Maintains c sequence
  check_pending-Maintains (some p) c sequence = record { at = λ r i. i }

  check_known-Maintains :
      (found : Option InboxRow) (c : OperationCompletion) (sequence : ℕ)
      → Maintains IsRuntime (check_known sha256 h found c sequence)
  unfolding check_known
  check_known-Maintains none c sequence = record {
    at = λ r i. (check_pending-Maintains _ c sequence).at r i;
  }
  check_known-Maintains (some row) c sequence = record { at = λ r i. i }

  check_identity-Maintains :
      (c : OperationCompletion) → Maintains IsRuntime (check_identity sha256 h c)
  unfolding check_identity
  check_identity-Maintains c =
      Maintains-continue IsRuntime (derived_sequence c)
        (λ sequence s.
          check_known sha256 h (find_input (completion_event_id c.operation_id) s.store.inbox) c
            sequence s)
        λ sequence. record { at = λ s k. (check_known-Maintains _ c sequence).at s k }

  pub check_completion-Maintains :
      (c : OperationCompletion) → Maintains IsRuntime (check_completion sha256 h c)
  unfolding check_completion
  check_completion-Maintains c = exclusive-Maintains _ (record {
    at = λ r i.
        (Maintains-continue IsRuntime (require_session r).0 _
            (λ info. check_identity-Maintains c)).at
          (require_session r).1 (require_session-Maintains.at r i);
  })

  module _ (now : ℕ) where
    insert_completion-IsRuntime :
        (c : OperationCompletion) (r : SessionRuntime T C) (store : Store T)
        → IsRuntime r
        → insert_completion sha256 now c r.store ≡ ok store
        → IsRuntime (record r { store = store })
    unfolding insert_completion
    insert_completion-IsRuntime c r store i e =
        let ((input, rows), inserted, same) =
          >>=-eq-ok
            (insert_next now (completion_event_id c.operation_id) (completion_event c)
              (input_hash sha256 (completion_event c)) r.store.inbox)
            _ e in
        subst (λ s. IsRuntime (record r { store = s })) (ok_eq same)
          (insert_next-IsRuntime r i now _ _ _ input rows inserted)

    keep_completion-IsRuntime :
        (c : OperationCompletion) (result : Result (Store T)) (r : SessionRuntime T C)
        → IsRuntime r
        → ((store : Store T) → result ≡ ok store → IsRuntime (record r { store = store }))
        → IsRuntime (keep_completion sha256 now c result r).1
    unfolding keep_completion
    keep_completion-IsRuntime c (err e) r i k = i
    keep_completion-IsRuntime c (ok store) r i k = k store refl

    pub commit_completion-Maintains :
        (c : OperationCompletion) (a : Admission)
        → Maintains {S = SessionRuntime T C} IsRuntime (commit_completion sha256 now c a)
    unfolding commit_completion
    commit_completion-Maintains c a = record {
      at = λ r i. elim (Bool-cases a.known) [
        | inl known ↦ simp known i
        | inr new ↦ simp new (
            (exclusive-Maintains _ (record {
              at = λ s k.
                  keep_completion-IsRuntime c _ s k
                    (λ store. insert_completion-IsRuntime c s store k);
            })).at
              r i)
      ];
    }

    pub accept_completion-Maintains :
        (value : Json) → Maintains IsRuntime (accept_completion sha256 h now value)
    unfolding accept_completion accept_checked
    accept_completion-Maintains value =
        Maintains-continue IsRuntime (parse_operation_completion value) _ λ c. record {
          at = λ r i.
              (Maintains-continue IsRuntime (check_completion sha256 h c r).0 _
                  (λ a. commit_completion-Maintains c a)).at
                (check_completion sha256 h c r).1 ((check_completion-Maintains c).at r i);
        }
