-- ===== src/Runtime/Calls/Failures.antt =====
-- Calls that throw (runtime.ts).
use managed_agents.Common.{ℕ, String, some, List, ◌≡◌, Failure, Result, ok, err}
use managed_agents.Runtime.Harness.{HarnessDefinition}
use managed_agents.Runtime.Core.State.{SessionRuntime, get_session}
use managed_agents.Runtime.Calls.History.{
  Call, initialized, asked, appended, planned, committed, completed, failure_of, thrown, perform,
}
use managed_agents.Runtime.Atomicity.Rules.{Unless, exclusive-Reads}
use managed_agents.Runtime.Atomicity.Reading.{prepare_next-Reads, require_session-Reads}
use managed_agents.Runtime.Atomicity.Writing.{append_input-Atomic, commit-Atomic}
use managed_agents.Runtime.Atomicity.Results.{accept_completion-Atomic, initialize-Atomic}

Unless-failed :
    {A : Type 0} (result : Result A) (P : Type 0) (e : Failure)
    → failure_of result ≡ some e
    → Unless result P
    → P
Unless-failed (ok a) P e f u = cc
Unless-failed (err given) P e f u = u

module _ {T C : Type 0} (sha256 : String → List ℕ) (h : HarnessDefinition T C) where
  -- A call that throws, of whatever method and for whatever reason, leaves the database as it was.
  pub thrown-store :
      (call : Call C) (r : SessionRuntime T C) (e : Failure)
      → thrown sha256 h call r ≡ some e
      → (perform sha256 h call r).store ≡ r.store
  unfolding thrown perform get_session
  thrown-store (initialized now value) r e f =
      Unless-failed _ _ e f ((initialize-Atomic sha256 h now value).at r)
  thrown-store asked r e f = (exclusive-Reads _ require_session-Reads).at r
  thrown-store (appended now value) r e f =
      Unless-failed _ _ e f ((append_input-Atomic sha256 h now value).at r)
  thrown-store planned r e f = (prepare_next-Reads sha256 h).at r
  thrown-store (committed now p receipts) r e f =
      Unless-failed _ _ e f ((commit-Atomic sha256 h now p receipts).at r)
  thrown-store (completed now value) r e f =
      Unless-failed _ _ e f ((accept_completion-Atomic sha256 h now value).at r)
