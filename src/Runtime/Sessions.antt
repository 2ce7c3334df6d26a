-- ===== src/Runtime/Sessions.antt =====
-- A method that returns, and the session that it required (runtime.ts).
use managed_agents.Common.{
  true, false, Option, none, some, ◌≡◌, inl, inr, refl, sym, ap, ◌∙◌, Bool-cases, arith, Result, ok,
  err, ok_eq,
}
use managed_agents.Common.Exec.{Exec, continue}
use managed_agents.Contracts.Session.{SessionInfo}
use managed_agents.Runtime.Core.State.{
  SessionRuntime, remember, load_stored, load_cached, load_session, require_session, exclusive,
  release, present, check_harness,
}

module _ {T C A : Type 0} where
  pub exclusive-eq-ok :
      (m : Exec (SessionRuntime T C) A) (r r' : SessionRuntime T C) (a : A)
      → exclusive m r ≡ (ok a, r')
      → (r.busy ≡ false)
        × (s : SessionRuntime T C) × (m (record r { busy = true }) ≡ (ok a, s))
        × (r' ≡ record s { busy = false })
  unfolding exclusive release
  exclusive-eq-ok m r r' a e = elim (Bool-cases r.busy) [
    | inl busy ↦ absurd (ground (arith, simp busy at e))
    | inr free ↦
        let same = simp free at e in
        let done = m (record r { busy = true }) in
        (free, done.1, ap (λ x. (x.0, done.1)) same, ap (λ x. x.1) (sym same))
  ]

module _ {T C : Type 0} (r : SessionRuntime T C) where
  checked-cached :
      (info found : SessionInfo) (checked : Result (Unit {0}))
      → (continue checked
          (λ _ (s : SessionRuntime T C). (ok (some info), record s { session = some info }))
          r).0
        ≡ ok (some found)
      → (continue checked
          (λ _ (s : SessionRuntime T C). (ok (some info), record s { session = some info }))
          r).1.session
        ≡ some found
  checked-cached info found (ok _) e = ok_eq e
  checked-cached info found (err failure) e = cc

  load_stored-cached :
      (stored : Option SessionInfo) (found : SessionInfo)
      → (load_stored stored r).0 ≡ ok (some found)
      → (load_stored stored r).1.session ≡ some found
  unfolding load_stored remember
  load_stored-cached none found e = cc
  load_stored-cached (some info) found e =
      checked-cached info found (check_harness r.identity info.identity.harness) e

  load_cached-cached :
      (cache : Option SessionInfo) (found : SessionInfo)
      → r.session ≡ cache
      → (load_cached cache r).0 ≡ ok (some found)
      → (load_cached cache r).1.session ≡ some found
  unfolding load_cached
  load_cached-cached none found c e = load_stored-cached r.store.session found e
  load_cached-cached (some info) found c e = c ∙ ok_eq e

  present-cached :
      (loaded : Result (Option SessionInfo)) (s : SessionRuntime T C) (info : SessionInfo)
      → ((found : SessionInfo) → loaded ≡ ok (some found) → s.session ≡ some found)
      → (continue loaded (λ found t. (present found, t)) s).0 ≡ ok info
      → (continue loaded (λ found t. (present found, t)) s).1.session ≡ some info
  unfolding present
  present-cached (err failure) s info k e = cc
  present-cached (ok none) s info k e = cc
  present-cached (ok (some found)) s info k e = k info (ap ok (ap some (ok_eq e)))

  -- the session that a method required is cached
  pub require_session-cached :
      (info : SessionInfo)
      → (require_session r).0 ≡ ok info
      → (require_session r).1.session ≡ some info
  unfolding require_session load_session
  require_session-cached info =
      present-cached (load_session r).0 (load_session r).1 info
        λ found. load_cached-cached r.session found refl

  load_session-eq :
      (info : SessionInfo) → r.session ≡ some info → load_session r ≡ (ok (some info), r)
  unfolding load_session load_cached
  load_session-eq info e = rw e refl

  pub require_session-eq :
      (info : SessionInfo) → r.session ≡ some info → require_session r ≡ (ok info, r)
  unfolding require_session present
  require_session-eq info e = rw (load_session-eq info e) refl
