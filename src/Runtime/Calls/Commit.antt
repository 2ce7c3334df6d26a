-- ===== src/Runtime/Calls/Commit.antt =====
-- `commit` and the invariant of a runtime (runtime.ts).
use managed_agents.Common.{
  ℕ, String, none, List, ◌≡◌, refl, inl, inr, Bool-cases, sym, subst, ap, ◌∙◌, Result, ok, err,
}
use managed_agents.Contracts.Session.{SessionInfo}
use managed_agents.Contracts.Operation.{ProviderSubmitResult}
use managed_agents.Runtime.Storage.{Store}
use managed_agents.Runtime.Harness.{HarnessDefinition}
use managed_agents.Runtime.Invariant.{IsStore}
use managed_agents.Runtime.Preservation.{commit_store-Committed, commit_store-IsStore}
use managed_agents.Runtime.Growth.{settle_operations-Grows}
use managed_agents.Runtime.Coherence.{
  Cached, IsRuntime, Maintains, Maintains-continue, exclusive-Maintains, require_session-Maintains,
}
use managed_agents.Runtime.Core.State.{PreparedTransition, SessionRuntime, require_session}
use managed_agents.Runtime.Core.Commit.{
  SubmissionReceipt, commit_store, consume, keep_committed, commit_session, is_current,
  commit_current, commit,
}

module _ {T C : Type 0} (sha256 : String → List ℕ) (h : HarnessDefinition T C) (now : ℕ) where
  commit_store-session :
      (info : SessionInfo) (p : PreparedTransition C)
      (results : List (String × ProviderSubmitResult)) (store store' : Store T)
      → IsStore store
      → commit_store sha256 now h info p results store ≡ ok store'
      → store'.session ≡ store.session
  unfolding consume
  commit_store-session info p results store store' s e =
      let c = commit_store-Committed sha256 now h info p results store store' e in
      let g =
        settle_operations-Grows sha256 now p.input.sequence results p.operations
          (record store { tables = c.tables }) c.settled
          (record { inbox = s.inbox; pending = s.pending }) c.settled_lem in
      ap (λ (t : Store T). t.session) c.result ∙ g.session

  commit_store-IsRuntime :
      (info : SessionInfo) (p : PreparedTransition C)
      (results : List (String × ProviderSubmitResult)) (r : SessionRuntime T C) (store : Store T)
      → IsRuntime r
      → commit_store sha256 now h info p results r.store ≡ ok store
      → IsRuntime (record r { store = store; prepared = none })
  commit_store-IsRuntime info p results r store i e = record {
    store = commit_store-IsStore sha256 now h info p results r.store store i.store e;
    ready = tt;
    cached =
        subst (Cached r.session) (sym (commit_store-session info p results r.store store i.store e))
          i.cached;
  }

  keep_committed-IsRuntime :
      (p : PreparedTransition C) (result : Result (Store T)) (r : SessionRuntime T C)
      → IsRuntime r
      → ((store : Store T)
          → result ≡ ok store
          → IsRuntime (record r { store = store; prepared = none }))
      → IsRuntime (keep_committed sha256 now h p result r).1
  unfolding keep_committed
  keep_committed-IsRuntime p (err e) r i k = i
  keep_committed-IsRuntime p (ok store) r i k = k store refl

  commit_session-Maintains :
      (p : PreparedTransition C) (results : List (String × ProviderSubmitResult))
      → Maintains IsRuntime (commit_session sha256 now h p results)
  unfolding commit_session
  commit_session-Maintains p results = record {
    at = λ r i.
        (Maintains-continue IsRuntime (require_session r).0
            (λ info s.
              keep_committed sha256 now h p (commit_store sha256 now h info p results s.store) s)
            (λ info. record {
              at = λ s k.
                  keep_committed-IsRuntime p _ s k
                    (λ store. commit_store-IsRuntime info p results s store k);
            })).at
          (require_session r).1 (require_session-Maintains.at r i);
  }

  commit_current-Maintains :
      (p : PreparedTransition C) (results : Result (List (String × ProviderSubmitResult)))
      → Maintains IsRuntime (commit_current sha256 now h p results)
  unfolding commit_current
  commit_current-Maintains p (err e) = record { at = λ r i. i }
  commit_current-Maintains p (ok results) = commit_session-Maintains p results

  pub commit-Maintains :
      (p : PreparedTransition C) (receipts : List SubmissionReceipt)
      → Maintains IsRuntime (commit sha256 now h p receipts)
  unfolding commit
  commit-Maintains p receipts = exclusive-Maintains _ (record {
    at = λ r i. elim (Bool-cases (is_current sha256 now h r.prepared p)) [
      | inl current ↦ rw current ((commit_current-Maintains p _).at r i)
      | inr stale ↦ rw stale i
    ];
  })
