-- ===== src/Driver/Alarm.antt =====
-- The alarm that the loop of a driver leaves (driver.ts).
use managed_agents.Common.{subst, Bool, true, not, ◌&&◌, is_some, ◌≡◌, subst}
use managed_agents.Contracts.Json.{Json}
use managed_agents.Runtime.Storage.{processing_status}
use managed_agents.Driver.State.{SessionDriver}

-- An input waits that is not blocked.
abbrev pub has_work : {T C : Type 0} → SessionDriver T C → Bool
has_work d =
    let progress = processing_status d.runtime.store.inbox in
    is_some progress.pending_event_id && not progress.blocked

-- an alarm is set, or there is no work
abbrev Armed : {T C : Type 0} → SessionDriver T C → Type 0
Armed d = has_work d ≡ true → is_some d.alarm ≡ true
