-- ===== src/Runtime/Calls/Append.antt =====
-- `appendInput` and the invariant of a runtime (runtime.ts).
use managed_agents.Common.{
  ℕ, String, Option, none, some, List, ◌≡◌, refl, inl, inr, Bool-cases, subst, ap, Result, ok, err,
  ok_eq, >>=-eq-ok,
}
use managed_agents.Contracts.Json.{Json}
use managed_agents.Contracts.Session.{SessionInfo, SubmitInputRequest, parse_submit_input_request}
use managed_agents.Runtime.Event.{input_hash}
use managed_agents.Runtime.Storage.{Store, InboxRow}
use managed_agents.Runtime.Harness.{HarnessDefinition}
use managed_agents.Runtime.Coherence.{
  IsRuntime, Maintains, Maintains-continue, exclusive-Maintains, require_session-Maintains,
  insert_next-IsRuntime,
}
use managed_agents.Runtime.Core.State.{SessionRuntime, require_session}
use managed_agents.Runtime.Core.Insert.{insert_next}
use managed_agents.Runtime.Core.Admission.{
  InputReceipt, event_of, fresh_input, admit_known, validated_input, repeated_input, admit_store,
  keep_admitted, admit_session, admit_input, append_input, is_reserved,
}

module _ {T C : Type 0} (sha256 : String → List ℕ) (h : HarnessDefinition T C) (now : ℕ) where
  fresh_input-IsRuntime :
      (info : SessionInfo) (request : SubmitInputRequest) (r : SessionRuntime T C)
      (receipt : InputReceipt) (store : Store T)
      → IsRuntime r
      → fresh_input sha256 h now info request r.store ≡ ok (receipt, store)
      → IsRuntime (record r { store = store })
  unfolding fresh_input
  fresh_input-IsRuntime info request r receipt store i e =
      let (_, valid, e₁) = >>=-eq-ok (validated_input sha256 h now request.event) _ e in
      let ((input, rows), inserted, same) =
        >>=-eq-ok
          (insert_next now request.event_id (event_of request.event)
            (input_hash sha256 (event_of request.event)) r.store.inbox)
          _ e₁ in
      subst (λ s. IsRuntime (record r { store = s })) (ap (λ x. x.1) (ok_eq same))
        (insert_next-IsRuntime r i now _ _ _ input rows inserted)

  admit_known-IsRuntime :
      (found : Option InboxRow) (info : SessionInfo) (request : SubmitInputRequest)
      (r : SessionRuntime T C) (receipt : InputReceipt) (store : Store T)
      → IsRuntime r
      → admit_known sha256 h now found info request r.store ≡ ok (receipt, store)
      → IsRuntime (record r { store = store })
  unfolding admit_known
  admit_known-IsRuntime none info request r receipt store i e =
      fresh_input-IsRuntime info request r receipt store i e
  admit_known-IsRuntime (some row) info request r receipt store i e =
      let (receipt', repeated, same) =
        >>=-eq-ok (repeated_input sha256 h now info request row) _ e in
      subst (λ s. IsRuntime (record r { store = s })) (ap (λ x. x.1) (ok_eq same)) i

  keep_admitted-IsRuntime :
      (result : Result (InputReceipt × Store T)) (r : SessionRuntime T C)
      → IsRuntime r
      → ((receipt : InputReceipt) (store : Store T)
          → result ≡ ok (receipt, store)
          → IsRuntime (record r { store = store }))
      → IsRuntime (keep_admitted sha256 h now result r).1
  unfolding keep_admitted
  keep_admitted-IsRuntime (err e) r i k = i
  keep_admitted-IsRuntime (ok (receipt, store)) r i k = k receipt store refl

  admit_session-Maintains :
      (request : SubmitInputRequest) → Maintains IsRuntime (admit_session sha256 h now request)
  unfolding admit_session admit_store
  admit_session-Maintains request = record {
    at = λ r i.
        (Maintains-continue IsRuntime (require_session r).0
            (λ info s. keep_admitted sha256 h now (admit_store sha256 h now info request s.store) s)
            (λ info. record {
              at = λ s k.
                  keep_admitted-IsRuntime _ s k
                    (λ receipt store. admit_known-IsRuntime _ info request s receipt store k);
            })).at
          (require_session r).1 (require_session-Maintains.at r i);
  }

  pub admit_input-Maintains :
      (request : SubmitInputRequest) → Maintains IsRuntime (admit_input sha256 h now request)
  unfolding admit_input
  admit_input-Maintains request = exclusive-Maintains _ (record {
    at = λ r i. elim (Bool-cases (is_reserved request)) [
      | inl reserved ↦ rw reserved i
      | inr free ↦ rw free ((admit_session-Maintains request).at r i)
    ];
  })

  pub append_input-Maintains :
      (value : Json) → Maintains IsRuntime (append_input sha256 h now value)
  unfolding append_input
  append_input-Maintains value =
      Maintains-continue IsRuntime (parse_submit_input_request value) _ admit_input-Maintains
