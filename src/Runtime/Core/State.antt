-- ===== src/Runtime/Core/State.antt =====
-- The fields of a SessionRuntime, and what every method uses.
use managed_agents.Common.{
  ℕ, String, Bool, List, true, false, ◌&&◌, Option, none, some, if◌then◌else◌, str_eq, Result, ok,
  err, contract, error, initialization_conflict, session_not_initialized,
}
use managed_agents.Common.Exec.{Exec, continue, lift, ◌>>=◌}
use managed_agents.Contracts.Session.{HarnessIdentity, SessionInfo}
use managed_agents.Contracts.Operation.{OperationRequest}
use managed_agents.Runtime.Storage.{Store, Envelope}
use managed_agents.Runtime.Harness.{HarnessStatus}

pub record PreparedOperation : Type 0 where
  pub key : String
  pub operation_id : String
  pub submission_id : String
  pub request : OperationRequest

pub record PreparedTransition (C : Type 0) : Type 0 where
  pub reference : ℕ
  pub input : Envelope
  pub changes : C
  pub operations : List PreparedOperation
  pub status : Option HarnessStatus

-- `declared` are the keys of the declared operations; `prepared_count` numbers the objects that were
-- prepared.
pub record SessionRuntime (T C : Type 0) : Type 0 where
  pub store : Store T
  pub identity : HarnessIdentity
  pub declared : List String
  pub session : Option SessionInfo
  pub busy : Bool
  pub prepared : Option (PreparedTransition C)
  pub prepared_count : ℕ

unfoldable pub same_harness : HarnessIdentity → HarnessIdentity → Bool
same_harness a b = str_eq a.id b.id && str_eq a.version b.version

unfoldable pub check_harness : HarnessIdentity → HarnessIdentity → Result (Unit {0})
check_harness own given =
    if same_harness given own
    then ok tt
    else err (contract initialization_conflict "Session harness does not match this runtime.")

unfoldable pub present : Option SessionInfo → Result SessionInfo
present none = err (contract session_not_initialized "Initialize the session first.")
present (some info) = ok info

module _ {T C : Type 0} where
  -- the cache is filled from a stored session
  unfoldable pub remember : SessionInfo → Exec (SessionRuntime T C) (Option SessionInfo)
  remember info r =
      continue (check_harness r.identity info.identity.harness)
        (λ _ s. (ok (some info), record s { session = some info })) r

  unfoldable pub load_stored : Option SessionInfo → Exec (SessionRuntime T C) (Option SessionInfo)
  load_stored none r = (ok none, r)
  load_stored (some info) r = remember info r

  unfoldable pub load_cached : Option SessionInfo → Exec (SessionRuntime T C) (Option SessionInfo)
  load_cached (some info) r = (ok (some info), r)
  load_cached none r = load_stored r.store.session r

  unfoldable pub load_session : Exec (SessionRuntime T C) (Option SessionInfo)
  load_session r = load_cached r.session r

  unfoldable pub require_session : Exec (SessionRuntime T C) SessionInfo
  require_session = load_session >>= λ found. lift (present found)

  -- `finally { this.#busy = false; }`
  unfoldable pub release :
      {A : Type 0} → Result A × SessionRuntime T C → Result A × SessionRuntime T C
  release (result, r) = (result, record r { busy = false })

  unfoldable pub exclusive :
      {A : Type 0} → Exec (SessionRuntime T C) A → Exec (SessionRuntime T C) A
  exclusive operation r =
      if r.busy
      then (err (error "Session runtime methods must not be called reentrantly."), r)
      else release (operation (record r { busy = true }))

  unfoldable pub get_session : Exec (SessionRuntime T C) SessionInfo
  get_session = exclusive require_session
