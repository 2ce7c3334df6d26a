-- ===== src/Runtime/Core/Initialize.antt =====
-- The constructor and `initialize`.
use managed_agents.Common.{
  ℕ, Bool, true, false, ◌&&◌, Option, none, some, [], if◌then◌else◌, str_eq, Result, ok, err, ◌>>=◌,
  ◌>>◌, contract, initialization_conflict,
}
use managed_agents.Common.Exec.{Exec, continue}
use managed_agents.Contracts.Json.{Json}
use managed_agents.Contracts.Session.{
  SessionIdentity, SessionInfo, InitializeSessionRequest, parse_initialize_session_request,
}
use managed_agents.Runtime.Identity.{definition_keys}
use managed_agents.Runtime.Storage.{Store}
use managed_agents.Runtime.Harness.{HarnessDefinition}
use managed_agents.Runtime.Core.State.{
  SessionRuntime, load_session, check_harness, same_harness, exclusive,
}
use managed_agents.Runtime.Core.Insert.{timestamp}

pub record InitializeSessionResult : Type 0 where
  pub session : SessionInfo
  pub duplicate : Bool

-- `jsonEquals` of two session identities
unfoldable pub same_identity : SessionIdentity → SessionIdentity → Bool
same_identity a b = str_eq a.session_id b.session_id && same_harness a.harness b.harness

module _ {T C : Type 0} (h : HarnessDefinition T C) where
  unfoldable pub found_session : Option SessionInfo → Result (Option SessionInfo)
  found_session none = ok none
  found_session (some info) = check_harness h.identity info.identity.harness >> ok (some info)

  -- a new runtime object over a database whose tables stand
  unfoldable pub new_runtime : Store T → Result (SessionRuntime T C)
  new_runtime store = do
    declared ← definition_keys [] h.operations
    session ← found_session store.session
    ok (record {
      store = store;
      identity = h.identity;
      declared = declared;
      session = session;
      busy = false;
      prepared = none;
      prepared_count = 0;
    })

  module _ (now : ℕ) where
    -- the transaction of a first initialization
    unfoldable pub create_session :
        InitializeSessionRequest → Store T → Result (SessionInfo × Store T)
    create_session request store = do
      config ← h.parse_config request.config
      created_at ← timestamp now
      tables ←
          h.initialize
            (record { identity = request.session; config = config; created_at = created_at })
            store.tables
      ok (
        record { identity = request.session; config = config; created_at = created_at },
        record store {
          session =
              some
                (record { identity = request.session; config = config; created_at = created_at });
          tables = tables;
        },
      )

    unfoldable pub keep_created :
        Result (SessionInfo × Store T) → Exec (SessionRuntime T C) InitializeSessionResult
    keep_created (err e) r = (err e, r)
    keep_created (ok (info, store)) r = (
      ok (record { session = info; duplicate = false }),
      record r { store = store; session = some info },
    )

    unfoldable pub initialize_found :
        InitializeSessionRequest
        → Option SessionInfo
        → Exec (SessionRuntime T C) InitializeSessionResult
    initialize_found request (some info) r =
        if same_identity info.identity request.session
        then (ok (record { session = info; duplicate = true }), record r { session = some info })
        else (err (contract initialization_conflict "Session identity differs."), r)
    initialize_found request none r = keep_created (create_session request r.store) r

    unfoldable pub initialize_checked :
        InitializeSessionRequest → Exec (SessionRuntime T C) InitializeSessionResult
    initialize_checked request r =
        continue (check_harness r.identity request.session.harness)
          (λ _ s. let (found, s') = load_session s in continue found (initialize_found request) s')
          r

    unfoldable pub initialize : Json → Exec (SessionRuntime T C) InitializeSessionResult
    initialize value =
        exclusive λ r. continue (parse_initialize_session_request value) initialize_checked r
