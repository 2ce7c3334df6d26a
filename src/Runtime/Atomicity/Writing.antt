-- ===== src/Runtime/Atomicity/Writing.antt =====
-- The writes of `appendInput` and `commit` (runtime.ts).
use managed_agents.Common.{ℕ, String, List, refl, inl, inr, Bool-cases, Result, ok, err}
use managed_agents.Contracts.Json.{Json}
use managed_agents.Contracts.Session.{SubmitInputRequest, parse_submit_input_request}
use managed_agents.Contracts.Operation.{ProviderSubmitResult}
use managed_agents.Runtime.Storage.{Store}
use managed_agents.Runtime.Harness.{HarnessDefinition}
use managed_agents.Runtime.Core.State.{PreparedTransition, require_session}
use managed_agents.Runtime.Core.Admission.{
  InputReceipt, keep_admitted, admit_session, admit_input, append_input, is_reserved,
}
use managed_agents.Runtime.Core.Commit.{
  SubmissionReceipt, keep_committed, commit_session, commit_current, is_current, commit,
}
use managed_agents.Runtime.Atomicity.Rules.{Atomic, exclusive-Atomic, Atomic-continue, Atomic-then}
use managed_agents.Runtime.Atomicity.Reading.{require_session-Reads}

module _ {T C : Type 0} (sha256 : String → List ℕ) (h : HarnessDefinition T C) (now : ℕ) where
  keep_admitted-Atomic :
      (result : Result (InputReceipt × Store T))
      → Atomic {C = C} (keep_admitted sha256 h now result)
  unfolding keep_admitted
  keep_admitted-Atomic (err e) = record { at = λ r. refl }
  keep_admitted-Atomic (ok (receipt, store)) = record { at = λ r. tt }

  admit_session-Atomic :
      (request : SubmitInputRequest) → Atomic (admit_session sha256 h now request)
  unfolding admit_session
  admit_session-Atomic request =
      Atomic-then require_session _ require_session-Reads
        λ info. record { at = λ s. (keep_admitted-Atomic _).at s }

  admit_input-Atomic : (request : SubmitInputRequest) → Atomic (admit_input sha256 h now request)
  unfolding admit_input
  admit_input-Atomic request = exclusive-Atomic _ (record {
    at = λ r. elim (Bool-cases (is_reserved request)) [
      | inl reserved ↦ rw reserved refl
      | inr allowed ↦ rw allowed ((admit_session-Atomic request).at r)
    ];
  })

  pub append_input-Atomic : (value : Json) → Atomic (append_input sha256 h now value)
  unfolding append_input
  append_input-Atomic value =
      Atomic-continue (parse_submit_input_request value) _ admit_input-Atomic

  keep_committed-Atomic :
      (p : PreparedTransition C) (result : Result (Store T))
      → Atomic (keep_committed sha256 now h p result)
  unfolding keep_committed
  keep_committed-Atomic p (err e) = record { at = λ r. refl }
  keep_committed-Atomic p (ok store) = record { at = λ r. tt }

  commit_session-Atomic :
      (p : PreparedTransition C) (results : List (String × ProviderSubmitResult))
      → Atomic (commit_session sha256 now h p results)
  unfolding commit_session
  commit_session-Atomic p results =
      Atomic-then require_session _ require_session-Reads
        λ info. record { at = λ s. (keep_committed-Atomic p _).at s }

  commit_current-Atomic :
      (p : PreparedTransition C) (results : Result (List (String × ProviderSubmitResult)))
      → Atomic (commit_current sha256 now h p results)
  unfolding commit_current
  commit_current-Atomic p (err e) = record { at = λ r. refl }
  commit_current-Atomic p (ok results) = commit_session-Atomic p results

  pub commit-Atomic :
      (p : PreparedTransition C) (receipts : List SubmissionReceipt)
      → Atomic (commit sha256 now h p receipts)
  unfolding commit
  commit-Atomic p receipts = exclusive-Atomic _ (record {
    at = λ r. elim (Bool-cases (is_current sha256 now h r.prepared p)) [
      | inl current ↦ rw current ((commit_current-Atomic p _).at r)
      | inr stale ↦ rw stale refl
    ];
  })
