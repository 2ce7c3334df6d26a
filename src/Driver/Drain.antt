-- ===== src/Driver/Drain.antt =====
-- `#drain`: the processing loop. The lock makes each of its parts one step.
use managed_agents.Common.{
  ◌-◌, ◌&&◌, suc, ltb, if◌then◌else◌, ℕ, String, Bool, true, false, Option, none, some, List, [],
  ◌∷◌, Failure, Result, ok, err,
}
use managed_agents.Contracts.Json.{Json}
use managed_agents.Contracts.Session.{SessionInfo}
use managed_agents.Runtime.Storage.{ProcessingStatus, processing_status}
use managed_agents.Runtime.Harness.{HarnessDefinition}
use managed_agents.Runtime.Core.State.{PreparedTransition, PreparedOperation, load_session}
use managed_agents.Runtime.Core.Prepare.{prepare_next}
use managed_agents.Runtime.Core.Commit.{SubmissionReceipt, ProcessNextResult, commit}
use managed_agents.Runtime.Calls.History.{Call, run}
use managed_agents.Driver.Policy.{DriverPolicy}
use managed_agents.Driver.State.{SessionDriver, failed, is_due, schedule, arm}
use managed_agents.Driver.Submit.{submit}

-- what a part of the loop hands on
pub data Work (C : Type 0) : Type 0 where
  stop : Work C
  transition : PreparedTransition C → ProcessingStatus → Work C

-- A round of the loop: when the loop tests its limits, when the round runs, what the providers answer,
-- and the calls of the runtime that are admitted between the submission and the commit.
pub record Round (C : Type 0) : Type 0 where
  pub tested : ℕ
  pub now : ℕ
  pub provider : PreparedOperation → Result Json
  pub between : List (Call C)

-- the condition of the loop
unfoldable pub goes_on : DriverPolicy → ℕ → ℕ → ℕ → Bool
goes_on p started step tested = ltb step p.max_steps && ltb (tested - started) p.max_slice_ms

-- `error_message` is `errorMessage` of a failure.
module _ {T C : Type 0} (sha256 : String → List ℕ) (h : HarnessDefinition T C)
    (error_message : Failure → String) (random : ℕ) (p : DriverPolicy) where
  unfoldable pub fail :
      ℕ → ProcessingStatus → Failure → Bool → SessionDriver T C → SessionDriver T C
  fail now progress e handler_failure d =
      failed random p now progress (error_message e) handler_failure d

  unfoldable pub planned :
      ℕ
      → ProcessingStatus
      → Result (Option (PreparedTransition C))
      → SessionDriver T C
      → Work C × SessionDriver T C
  planned now progress (err e) d = (stop, fail now progress e true d)
  planned now progress (ok none) d = (stop, d)
  planned now progress (ok (some t)) d = (transition t progress, d)

  unfoldable pub plan_if :
      Bool → ℕ → ProcessingStatus → SessionDriver T C → Work C × SessionDriver T C
  plan_if false now progress d = (stop, d)
  plan_if true now progress d =
      let (result, r) = prepare_next sha256 h d.runtime in
      planned now progress result (record d { runtime = r })

  -- the locked part that finds the work; reading `initialized` may throw
  unfoldable pub find_work_in :
      ℕ → Result (Option SessionInfo) → SessionDriver T C → Result (Work C) × SessionDriver T C
  find_work_in now (err e) d = (err e, d)
  find_work_in now (ok none) d = (ok stop, d)
  find_work_in now (ok (some info)) d =
      let progress = processing_status d.runtime.store.inbox in
      let (work, d') = plan_if (is_due progress now) now progress d in (ok work, d')

  unfoldable pub find_work : ℕ → SessionDriver T C → Result (Work C) × SessionDriver T C
  find_work now d =
      let (found, r) = load_session d.runtime in find_work_in now found (record d { runtime = r })

  -- the locked part that commits; whether the loop goes on
  unfoldable pub committed :
      ℕ → ProcessingStatus → Result ProcessNextResult → SessionDriver T C → Bool × SessionDriver T C
  committed now progress (err e) d = (false, fail now progress e true d)
  committed now progress (ok result) d = (true, record d { receipts = []; receipt_input = none })

  unfoldable pub commit_work :
      ℕ
      → PreparedTransition C
      → ProcessingStatus
      → Result (List SubmissionReceipt)
      → SessionDriver T C
      → Bool × SessionDriver T C
  commit_work now t progress (err e) d = (false, fail now progress e false d)
  commit_work now t progress (ok receipts) d =
      let (result, r) = commit sha256 now h t receipts d.runtime in
      committed now progress result (record d { runtime = r })

  unfoldable pub do_work :
      Round C → Result (Work C) → SessionDriver T C → Result Bool × SessionDriver T C
  do_work round (err e) d = (err e, d)
  do_work round (ok stop) d = (ok false, d)
  do_work round (ok (transition t progress)) d =
      let (receipts, d₁) = submit round.provider t d in
      let d₂ = record d₁ { runtime = run sha256 h round.between d₁.runtime } in
      let (more, d₃) = commit_work round.now t progress receipts d₂ in (ok more, d₃)

  -- the body of the loop
  unfoldable pub run_round : Round C → SessionDriver T C → Result Bool × SessionDriver T C
  run_round round d = let (work, d') = find_work round.now d in do_work round work d'

  -- after a round: the loop goes on, it ends with the alarm scheduled, or a part threw
  unfoldable pub after_round :
      ℕ → Result Bool → SessionDriver T C → SessionDriver T C → SessionDriver T C
  after_round ended (err e) d rest = d
  after_round ended (ok false) d rest = schedule p ended d
  after_round ended (ok true) d rest = rest

  -- The loop from a step on. Behind the last round of the list the time is over.
  unfoldable pub drain_from : ℕ → ℕ → ℕ → List (Round C) → SessionDriver T C → SessionDriver T C
  drain_from started ended step [] d = schedule p ended d
  drain_from started ended step (round ∷ rounds) d =
      let (more, d') = run_round round d in
      let rest = drain_from started ended (suc step) rounds d' in
      if goes_on p started step round.tested
      then after_round ended more d' rest
      else schedule p ended d

  -- `#drain`: recovery is armed first unless it is
  unfoldable pub drain : Bool → ℕ → ℕ → ℕ → List (Round C) → SessionDriver T C → SessionDriver T C
  drain recovery_armed armed started ended rounds d =
      drain_from started ended 0 rounds (if recovery_armed then d else arm p armed d)
