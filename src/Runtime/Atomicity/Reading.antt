-- ===== src/Runtime/Atomicity/Reading.antt =====
-- The methods of a runtime that only read (runtime.ts).
use managed_agents.Common.{ℕ, String, Option, none, some, List, refl, Result, ok, err}
use managed_agents.Contracts.Session.{SessionInfo}
use managed_agents.Contracts.Operation.{OperationCompletion}
use managed_agents.Runtime.Storage.{InboxRow, PendingOperation, Envelope, next_input, find_input}
use managed_agents.Runtime.Harness.{HarnessDefinition}
use managed_agents.Runtime.Core.State.{
  PreparedTransition, remember, load_stored, load_cached, load_session, require_session,
  check_harness,
}
use managed_agents.Runtime.Core.Prepare.{
  keep_prepared, prepare_input, prepare_unless, prepare, prepare_next,
}
use managed_agents.Runtime.Core.Settle.{completion_event_id}
use managed_agents.Runtime.Core.Completion.{
  derived_sequence, check_proposed, check_pending, check_known, check_identity, check_completion,
}
use managed_agents.Runtime.Atomicity.Rules.{Reads, exclusive-Reads, Reads-continue, Reads-then}

module _ {T C : Type 0} where
  remember-Reads : (info : SessionInfo) → Reads {T = T} {C = C} (remember info)
  unfolding remember
  remember-Reads info = record {
    at = λ r.
        (Reads-continue (check_harness r.identity info.identity.harness) _
            λ _. record { at = λ s. refl }).at
          r;
  }

  load_stored-Reads : (stored : Option SessionInfo) → Reads {T = T} {C = C} (load_stored stored)
  unfolding load_stored
  load_stored-Reads none = record { at = λ r. refl }
  load_stored-Reads (some info) = record { at = (remember-Reads info).at }

  load_cached-Reads : (cache : Option SessionInfo) → Reads {T = T} {C = C} (load_cached cache)
  unfolding load_cached
  load_cached-Reads none = record { at = λ r. (load_stored-Reads r.store.session).at r }
  load_cached-Reads (some info) = record { at = λ r. refl }

  pub load_session-Reads : Reads {T = T} {C = C} load_session
  unfolding load_session
  load_session-Reads = record { at = λ r. (load_cached-Reads r.session).at r }

  pub require_session-Reads : Reads {T = T} {C = C} require_session
  unfolding require_session
  require_session-Reads =
      Reads-then load_session _ load_session-Reads λ found. record { at = λ s. refl }

module _ {T C : Type 0} (sha256 : String → List ℕ) (h : HarnessDefinition T C) where
  keep_prepared-Reads :
      (planned : Result (PreparedTransition C)) → Reads (keep_prepared sha256 h planned)
  unfolding keep_prepared
  keep_prepared-Reads (err e) = record { at = λ r. refl }
  keep_prepared-Reads (ok p) = record { at = λ r. refl }

  prepare_input-Reads :
      (info : SessionInfo) (found : Option Envelope) → Reads (prepare_input sha256 h info found)
  unfolding prepare_input
  prepare_input-Reads info none = record { at = λ r. refl }
  prepare_input-Reads info (some input) = record { at = λ r. (keep_prepared-Reads _).at r }

  prepare_unless-Reads :
      (held : Option (PreparedTransition C)) (info : SessionInfo)
      → Reads (prepare_unless sha256 h held info)
  unfolding prepare_unless
  prepare_unless-Reads (some p) info = record { at = λ r. refl }
  prepare_unless-Reads none info = record {
    at = λ r. (prepare_input-Reads info (next_input r.store.inbox)).at r;
  }

  pub prepare-Reads : Reads (prepare sha256 h)
  unfolding prepare
  prepare-Reads =
      Reads-then require_session _ require_session-Reads
        λ info. record { at = λ s. (prepare_unless-Reads s.prepared info).at s }

  check_proposed-Reads :
      (c : OperationCompletion) (sequence : ℕ) → Reads (check_proposed sha256 h c sequence)
  unfolding check_proposed
  check_proposed-Reads c sequence =
      Reads-then (prepare sha256 h) _ prepare-Reads λ p. record { at = λ s. refl }

  check_pending-Reads :
      (found : Option PendingOperation) (c : OperationCompletion) (sequence : ℕ)
      → Reads (check_pending sha256 h found c sequence)
  unfolding check_pending
  check_pending-Reads none c sequence = check_proposed-Reads c sequence
  check_pending-Reads (some p) c sequence = record { at = λ r. refl }

  check_known-Reads :
      (found : Option InboxRow) (c : OperationCompletion) (sequence : ℕ)
      → Reads (check_known sha256 h found c sequence)
  unfolding check_known
  check_known-Reads none c sequence = record { at = λ r. (check_pending-Reads _ c sequence).at r }
  check_known-Reads (some row) c sequence = record { at = λ r. refl }

  check_identity-Reads : (c : OperationCompletion) → Reads (check_identity sha256 h c)
  unfolding check_identity
  check_identity-Reads c =
      Reads-continue (derived_sequence c)
        (λ sequence s.
          check_known sha256 h (find_input (completion_event_id c.operation_id) s.store.inbox) c
            sequence s)
        λ sequence. record { at = λ s. (check_known-Reads _ c sequence).at s }

  pub check_completion-Reads : (c : OperationCompletion) → Reads (check_completion sha256 h c)
  unfolding check_completion
  check_completion-Reads c =
      exclusive-Reads _
        (Reads-then require_session _ require_session-Reads λ info. check_identity-Reads c)

  pub prepare_next-Reads : Reads (prepare_next sha256 h)
  unfolding prepare_next
  prepare_next-Reads = exclusive-Reads _ prepare-Reads
