-- ===== src/Runtime/Atomicity/Results.antt =====
-- The writes of `acceptCompletion` and `initialize` (runtime.ts).
use managed_agents.Common.{
  ℕ, String, Option, none, some, List, refl, inl, inr, Bool-cases, Result, ok, err,
}
use managed_agents.Contracts.Json.{Json}
use managed_agents.Contracts.Session.{
  SessionInfo, InitializeSessionRequest, parse_initialize_session_request,
}
use managed_agents.Contracts.Operation.{OperationCompletion, parse_operation_completion}
use managed_agents.Runtime.Storage.{Store}
use managed_agents.Runtime.Harness.{HarnessDefinition}
use managed_agents.Runtime.Core.State.{load_session, check_harness}
use managed_agents.Runtime.Core.Completion.{
  Admission, check_completion, keep_completion, commit_completion, accept_checked,
  accept_completion,
}
use managed_agents.Runtime.Core.Initialize.{
  keep_created, initialize_found, initialize_checked, initialize, same_identity,
}
use managed_agents.Runtime.Atomicity.Rules.{Atomic, exclusive-Atomic, Atomic-continue, Atomic-then}
use managed_agents.Runtime.Atomicity.Reading.{load_session-Reads, check_completion-Reads}

module _ {T C : Type 0} (sha256 : String → List ℕ) (h : HarnessDefinition T C) (now : ℕ) where
  keep_completion-Atomic :
      (c : OperationCompletion) (result : Result (Store T))
      → Atomic {C = C} (keep_completion sha256 now c result)
  unfolding keep_completion
  keep_completion-Atomic c (err e) = record { at = λ r. refl }
  keep_completion-Atomic c (ok store) = record { at = λ r. tt }

  commit_completion-Atomic :
      (c : OperationCompletion) (a : Admission)
      → Atomic {T = T} {C = C} (commit_completion sha256 now c a)
  unfolding commit_completion
  commit_completion-Atomic c a = record {
    at = λ r. elim (Bool-cases a.known) [
      | inl known ↦ simp known tt
      | inr new ↦
          simp new
            ((exclusive-Atomic _ (record { at = λ s. (keep_completion-Atomic c _).at s })).at r)
    ];
  }

  accept_checked-Atomic : (c : OperationCompletion) → Atomic (accept_checked sha256 h now c)
  unfolding accept_checked
  accept_checked-Atomic c =
      Atomic-then (check_completion sha256 h c) _ (check_completion-Reads sha256 h c)
        λ a. commit_completion-Atomic c a

  pub accept_completion-Atomic : (value : Json) → Atomic (accept_completion sha256 h now value)
  unfolding accept_completion
  accept_completion-Atomic value =
      Atomic-continue (parse_operation_completion value) _ accept_checked-Atomic

  keep_created-Atomic :
      (result : Result (SessionInfo × Store T)) → Atomic (keep_created h now result)
  unfolding keep_created
  keep_created-Atomic (err e) = record { at = λ r. refl }
  keep_created-Atomic (ok (info, store)) = record { at = λ r. tt }

  initialize_found-Atomic :
      (request : InitializeSessionRequest) (found : Option SessionInfo)
      → Atomic (initialize_found h now request found)
  unfolding initialize_found
  initialize_found-Atomic request none = record { at = λ r. (keep_created-Atomic _).at r }
  initialize_found-Atomic request (some info) = record {
    at = λ r. elim (Bool-cases (same_identity info.identity request.session)) [
      | inl same ↦ rw same tt
      | inr other ↦ rw other refl
    ];
  }

  pub initialize-Atomic : (value : Json) → Atomic (initialize h now value)
  unfolding initialize initialize_checked
  initialize-Atomic value = exclusive-Atomic _ (record {
    at = λ r.
        (Atomic-continue (parse_initialize_session_request value) (initialize_checked h now)
            λ request. record {
              at = λ s.
                  (Atomic-continue (check_harness s.identity request.session.harness) _ λ _.
                      Atomic-then load_session _ load_session-Reads
                        (initialize_found-Atomic request)).at
                    s;
            }).at
          r;
  })
