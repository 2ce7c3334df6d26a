-- ===== src/Runtime/Calls/Prepare.antt =====
-- `prepareNext` and the invariant of a runtime (runtime.ts).
use managed_agents.Common.{
  ℕ, String, Option, none, some, List, [], ◌≡◌, refl, sym, ap, ◌∙◌, Result, ok, err, ok_eq,
  >>=-eq-ok,
}
use managed_agents.Contracts.Session.{SessionInfo}
use managed_agents.Runtime.Storage.{Store, Envelope, next_input}
use managed_agents.Runtime.Harness.{HarnessDefinition}
use managed_agents.Runtime.Coherence.{
  IsRuntime, Maintains, Maintains-continue, exclusive-Maintains, require_session-Maintains,
}
use managed_agents.Runtime.Core.State.{PreparedTransition, SessionRuntime, require_session}
use managed_agents.Runtime.Core.Prepare.{
  check_event, read_context, prepare_operations, plan_input, keep_prepared, prepare_input,
  prepare_unless, prepare, prepare_next,
}

module _ {T C : Type 0} (sha256 : String → List ℕ) (h : HarnessDefinition T C) where
  -- what a plan is the plan of
  pub input-plan_input :
      (reference : ℕ) (info : SessionInfo) (declared : List String) (input : Envelope)
      (store : Store T) (p : PreparedTransition C)
      → plan_input sha256 h reference info declared input store ≡ ok p
      → p.input ≡ input
  unfolding plan_input
  input-plan_input reference info declared input store p e =
      let (_, checked, e₁) = >>=-eq-ok (check_event input.event store.pending) _ e in
      let (plan, handled, e₂) =
        >>=-eq-ok (h.handle input (read_context sha256 h info input.sequence) store.tables) _ e₁ in
      let (ops, prepared, same) =
        >>=-eq-ok (prepare_operations sha256 info input.sequence declared [] plan.operations) _
          e₂ in
      ap (λ q. q.input) (sym (ok_eq same))

  keep_prepared-IsRuntime :
      (planned : Result (PreparedTransition C)) (r : SessionRuntime T C)
      → IsRuntime r
      → ((p : PreparedTransition C) → planned ≡ ok p → next_input r.store.inbox ≡ some p.input)
      → IsRuntime (keep_prepared sha256 h planned r).1
  unfolding keep_prepared
  keep_prepared-IsRuntime (err e) r i k = i
  keep_prepared-IsRuntime (ok p) r i k = record {
    store = i.store;
    ready = k p refl;
    cached = i.cached;
  }

  prepare_input-IsRuntime :
      (info : SessionInfo) (found : Option Envelope) (r : SessionRuntime T C)
      → IsRuntime r
      → next_input r.store.inbox ≡ found
      → IsRuntime (prepare_input sha256 h info found r).1
  unfolding prepare_input
  prepare_input-IsRuntime info none r i e = i
  prepare_input-IsRuntime info (some input) r i e =
      keep_prepared-IsRuntime _ r i
        λ p planned. e ∙ ap some (sym (input-plan_input _ info r.declared input r.store p planned))

  prepare_unless-IsRuntime :
      (held : Option (PreparedTransition C)) (info : SessionInfo) (r : SessionRuntime T C)
      → IsRuntime r
      → IsRuntime (prepare_unless sha256 h held info r).1
  unfolding prepare_unless
  prepare_unless-IsRuntime (some p) info r i = i
  prepare_unless-IsRuntime none info r i =
      prepare_input-IsRuntime info (next_input r.store.inbox) r i refl

  pub prepare-Maintains : Maintains IsRuntime (prepare sha256 h)
  unfolding prepare
  prepare-Maintains = record {
    at = λ r i.
        (Maintains-continue IsRuntime (require_session r).0
            (λ info s. prepare_unless sha256 h s.prepared info s)
            (λ info. record { at = λ s k. prepare_unless-IsRuntime s.prepared info s k })).at
          (require_session r).1 (require_session-Maintains.at r i);
  }

  pub prepare_next-Maintains : Maintains IsRuntime (prepare_next sha256 h)
  unfolding prepare_next
  prepare_next-Maintains = exclusive-Maintains (prepare sha256 h) prepare-Maintains
