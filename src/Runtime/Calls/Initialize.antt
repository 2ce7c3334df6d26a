-- ===== src/Runtime/Calls/Initialize.antt =====
-- `initialize`, the constructor and the invariant of a runtime (runtime.ts).
use managed_agents.Common.{
  ℕ, Option, none, some, [], ◌≡◌, refl, inl, inr, Bool-cases, subst, ap, ◌∙◌, Result, ok, err,
  ok_eq, >>=-eq-ok,
}
use managed_agents.Common.Exec.{continue}
use managed_agents.Contracts.Json.{Json}
use managed_agents.Contracts.Session.{
  SessionInfo, InitializeSessionRequest, parse_initialize_session_request,
}
use managed_agents.Runtime.Identity.{definition_keys}
use managed_agents.Runtime.Storage.{Store}
use managed_agents.Runtime.Harness.{HarnessDefinition}
use managed_agents.Runtime.Invariant.{IsStore}
use managed_agents.Runtime.Coherence.{
  Cached, IsRuntime, Maintains, Maintains-continue, exclusive-Maintains, load_session-Maintains,
}
use managed_agents.Runtime.Core.State.{
  SessionRuntime, remember, load_stored, load_cached, load_session, check_harness,
}
use managed_agents.Runtime.Core.Insert.{timestamp}
use managed_agents.Runtime.Core.Initialize.{
  found_session, new_runtime, create_session, keep_created, initialize_found, initialize_checked,
  initialize, same_identity,
}

module _ {T C : Type 0} (r : SessionRuntime T C) (i : IsRuntime r) where
  checked-stored :
      (info found : SessionInfo) (checked : Result (Unit {0}))
      → r.store.session ≡ some info
      → (continue checked
          (λ _ (s : SessionRuntime T C). (ok (some info), record s { session = some info }))
          r).0
        ≡ ok (some found)
      → (continue checked
          (λ _ (s : SessionRuntime T C). (ok (some info), record s { session = some info }))
          r).1.store.session
        ≡ some found
  checked-stored info found (ok _) stored e = stored ∙ ok_eq e
  checked-stored info found (err failure) stored e = cc

  remember-stored :
      (info found : SessionInfo)
      → r.store.session ≡ some info
      → (remember info r).0 ≡ ok (some found)
      → (remember info r).1.store.session ≡ some found
  unfolding remember
  remember-stored info found stored e =
      checked-stored info found (check_harness r.identity info.identity.harness) stored e

  load_stored-stored :
      (stored : Option SessionInfo) (found : SessionInfo)
      → r.store.session ≡ stored
      → (load_stored stored r).0 ≡ ok (some found)
      → (load_stored stored r).1.store.session ≡ some found
  unfolding load_stored
  load_stored-stored none found same e = cc
  load_stored-stored (some info) found same e = remember-stored info found same e

  load_cached-stored :
      (cache : Option SessionInfo) (found : SessionInfo)
      → Cached cache r.store.session
      → (load_cached cache r).0 ≡ ok (some found)
      → (load_cached cache r).1.store.session ≡ some found
  unfolding load_cached
  load_cached-stored none found c e = load_stored-stored r.store.session found refl e
  load_cached-stored (some info) found c e = c ∙ ok_eq e

  -- the session that is loaded is the stored one
  load_session-stored :
      (found : SessionInfo)
      → (load_session r).0 ≡ ok (some found)
      → (load_session r).1.store.session ≡ some found
  unfolding load_session
  load_session-stored found e = load_cached-stored r.session found i.cached e

module _ {T C : Type 0} (h : HarnessDefinition T C) (now : ℕ) where
  keep_created-IsRuntime :
      (result : Result (SessionInfo × Store T)) (r : SessionRuntime T C)
      → IsRuntime r
      → ((info : SessionInfo) (store : Store T)
          → result ≡ ok (info, store)
          → IsRuntime (record r { store = store; session = some info }))
      → IsRuntime (keep_created h now result r).1
  unfolding keep_created
  keep_created-IsRuntime (err e) r i k = i
  keep_created-IsRuntime (ok (info, store)) r i k = k info store refl

  -- a created session is the cached one, and the inbox stands as it did
  create_session-IsRuntime :
      (request : InitializeSessionRequest) (r : SessionRuntime T C) (info : SessionInfo)
      (store : Store T)
      → IsRuntime r
      → create_session h now request r.store ≡ ok (info, store)
      → IsRuntime (record r { store = store; session = some info })
  unfolding create_session
  create_session-IsRuntime request r info store i e =
      let (config, parsed, e₁) = >>=-eq-ok (h.parse_config request.config) _ e in
      let (at, dated, e₂) = >>=-eq-ok (timestamp now) _ e₁ in
      let (tables, filled, same) = >>=-eq-ok (h.initialize _ r.store.tables) _ e₂ in
      subst (λ x. IsRuntime (record r { store = x.1; session = some x.0 })) (ok_eq same)
        (record {
          store = record { inbox = i.store.inbox; pending = i.store.pending };
          ready = i.ready;
          cached = refl;
        })

  initialize_found-IsRuntime :
      (request : InitializeSessionRequest) (found : Option SessionInfo) (r : SessionRuntime T C)
      → IsRuntime r
      → ((info : SessionInfo) → found ≡ some info → r.store.session ≡ some info)
      → IsRuntime (initialize_found h now request found r).1
  unfolding initialize_found
  initialize_found-IsRuntime request none r i stored =
      keep_created-IsRuntime _ r i λ info store. create_session-IsRuntime request r info store i
  initialize_found-IsRuntime request (some info) r i stored =
      elim (Bool-cases (same_identity info.identity request.session)) [
        | inl same ↦
            simp same (record { store = i.store; ready = i.ready; cached = stored info refl })
        | inr other ↦ simp other i
      ]

  continue_found-IsRuntime :
      (request : InitializeSessionRequest) (loaded : Result (Option SessionInfo))
      (r : SessionRuntime T C)
      → IsRuntime r
      → ((info : SessionInfo) → loaded ≡ ok (some info) → r.store.session ≡ some info)
      → IsRuntime (continue loaded (initialize_found h now request) r).1
  continue_found-IsRuntime request (err e) r i stored = i
  continue_found-IsRuntime request (ok found) r i stored =
      initialize_found-IsRuntime request found r i λ info same. stored info (ap ok same)

  initialize_checked-Maintains :
      (request : InitializeSessionRequest) → Maintains IsRuntime (initialize_checked h now request)
  unfolding initialize_checked
  initialize_checked-Maintains request = record {
    at = λ r i.
        (Maintains-continue IsRuntime (check_harness r.identity request.session.harness)
            (λ _ s.
              let (found, s') = load_session s in
              continue found (initialize_found h now request) s')
            (λ _. record {
              at = λ s k.
                  continue_found-IsRuntime request (load_session s).0 (load_session s).1
                    (load_session-Maintains.at s k) (load_session-stored s k);
            })).at
          r i;
  }

  pub initialize-Maintains : (value : Json) → Maintains IsRuntime (initialize h now value)
  unfolding initialize
  initialize-Maintains value = exclusive-Maintains _ (record {
    at = λ r i.
        (Maintains-continue IsRuntime (parse_initialize_session_request value)
            (initialize_checked h now) initialize_checked-Maintains).at
          r i;
  })

module _ {T C : Type 0} (h : HarnessDefinition T C) where
  found_session-Cached :
      (stored cache : Option SessionInfo) → found_session h stored ≡ ok cache → Cached cache stored
  unfolding found_session
  found_session-Cached none cache e = subst (λ c. Cached c none) (ok_eq e) tt
  found_session-Cached (some info) cache e =
      let (_, checked, same) =
        >>=-eq-ok (check_harness h.identity info.identity.harness) (λ _. ok (some info)) e in
      subst (λ c. Cached c (some info)) (ok_eq same) refl

  pub new_runtime-IsRuntime :
      (store : Store T) (r : SessionRuntime T C)
      → IsStore store
      → new_runtime h store ≡ ok r
      → IsRuntime r
  unfolding new_runtime
  new_runtime-IsRuntime store r s e =
      let (declared, keys, e₁) = >>=-eq-ok (definition_keys [] h.operations) _ e in
      let (session, found, same) = >>=-eq-ok (found_session h store.session) _ e₁ in
      subst IsRuntime (ok_eq same) (record {
        store = s;
        ready = tt;
        cached = found_session-Cached store.session session found;
      })
