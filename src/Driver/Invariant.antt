-- ===== src/Driver/Invariant.antt =====
-- The invariant of the runtime under the processing loop (driver.ts).
use managed_agents.Common.{
  suc, ℕ, ◌+◌, String, is_some, Bool, true, false, not, ◌&&◌, Option, none, some, List, [], ◌∷◌,
  ◌≡◌, refl, inl, inr, Bool-cases, sym, subst, ◌∙◌, Failure, Result, ok, err,
}
use managed_agents.Contracts.Json.{Json}
use managed_agents.Contracts.Session.{SessionInfo}
use managed_agents.Runtime.Storage.{
  InboxRow, ProcessingStatus, processing_status, fail_processing, next_input,
}
use managed_agents.Runtime.Harness.{HarnessDefinition}
use managed_agents.Runtime.Inbox.Updates.{fail_processing-IsInbox, fail_processing-any}
use managed_agents.Runtime.Inbox.Progress.{fail_processing-next_input}
use managed_agents.Runtime.Invariant.{Pending-same}
use managed_agents.Runtime.Coherence.{Ready, IsRuntime, load_session-Maintains}
use managed_agents.Runtime.Calls.Prepare.{prepare_next-Maintains}
use managed_agents.Runtime.Calls.History.{run-IsRuntime}
use managed_agents.Runtime.Calls.Commit.{commit-Maintains}
use managed_agents.Runtime.Core.State.{PreparedTransition, PreparedOperation, load_session}
use managed_agents.Runtime.Core.Prepare.{prepare_next}
use managed_agents.Runtime.Core.Commit.{SubmissionReceipt, ProcessNextResult}
use managed_agents.Driver.Policy.{DriverPolicy, backoff}
use managed_agents.Driver.State.{
  SessionDriver, with_inbox, failed, is_blocked_by, schedule, arm, later_than,
}
use managed_agents.Driver.Submit.{answered, submit, for_input, keeps_receipts}
use managed_agents.Driver.Drain.{
  after_round, Work, stop, transition, fail, planned, plan_if, find_work_in, find_work, committed,
  commit_work, do_work, run_round, drain_from, drain, Round, goes_on,
}

Ready-same :
    {C : Type 0} (held : Option (PreparedTransition C)) (rows rows' : List InboxRow)
    → next_input rows' ≡ next_input rows
    → Ready held rows
    → Ready held rows'
Ready-same none rows rows' e r = tt
Ready-same (some p) rows rows' e r = e ∙ r

module _ {T C : Type 0} where
  failed-IsRuntime :
      (random : ℕ) (p : DriverPolicy) (now : ℕ) (status : ProcessingStatus) (message : String)
      (handler : Bool) (d : SessionDriver T C)
      → IsRuntime d.runtime
      → IsRuntime (failed random p now status message handler d).runtime
  unfolding failed with_inbox fail_processing
  failed-IsRuntime random p now status message handler d i =
      let rows = d.runtime.store.inbox in
      let blocked = is_blocked_by p status handler in
      let due = now + backoff random p (status.failures + 1) in
      record {
        store = record {
          inbox = fail_processing-IsInbox status due blocked message rows i.store.inbox;
          pending =
              Pending-same rows (fail_processing status due blocked message rows)
                d.runtime.store.pending (λ n. fail_processing-any n status due blocked message rows)
                i.store.pending;
        };
        ready =
            Ready-same d.runtime.prepared rows (fail_processing status due blocked message rows)
              (fail_processing-next_input status due blocked message rows i.store.inbox) i.ready;
        cached = i.cached;
      }

  for_input-runtime : (id : String) (d : SessionDriver T C) → (for_input id d).runtime ≡ d.runtime
  unfolding for_input
  for_input-runtime id d = elim (Bool-cases (keeps_receipts d.receipt_input id)) [
    | inl kept ↦ rw kept refl
    | inr new ↦ rw new refl
  ]

  answered-runtime :
      (failure : Option Failure) (receipts : List (String × Json)) (ops : List PreparedOperation)
      (d : SessionDriver T C)
      → (answered failure receipts ops d).1.runtime ≡ d.runtime
  unfolding answered
  answered-runtime none receipts ops d = refl
  answered-runtime (some e) receipts ops d = refl

  submit-runtime :
      (provider : PreparedOperation → Result Json) (t : PreparedTransition C)
      (d : SessionDriver T C)
      → (submit provider t d).1.runtime ≡ d.runtime
  unfolding submit
  submit-runtime provider t d =
      answered-runtime _ _ t.operations (for_input t.input.event_id d)
      ∙ for_input-runtime t.input.event_id d

module _ {T C : Type 0} (sha256 : String → List ℕ) (h : HarnessDefinition T C)
    (error_message : Failure → String) (random : ℕ) (p : DriverPolicy) where
  planned-IsRuntime :
      (now : ℕ) (status : ProcessingStatus) (result : Result (Option (PreparedTransition C)))
      (d : SessionDriver T C)
      → IsRuntime d.runtime
      → IsRuntime (planned sha256 h error_message random p now status result d).1.runtime
  unfolding planned fail
  planned-IsRuntime now status (err e) d i = failed-IsRuntime random p now status _ true d i
  planned-IsRuntime now status (ok none) d i = i
  planned-IsRuntime now status (ok (some t)) d i = i

  plan_if-IsRuntime :
      (due : Bool) (now : ℕ) (status : ProcessingStatus) (d : SessionDriver T C)
      → IsRuntime d.runtime
      → IsRuntime (plan_if sha256 h error_message random p due now status d).1.runtime
  unfolding plan_if
  plan_if-IsRuntime false now status d i = i
  plan_if-IsRuntime true now status d i =
      planned-IsRuntime now status (prepare_next sha256 h d.runtime).0
        (record d { runtime = (prepare_next sha256 h d.runtime).1 })
        ((prepare_next-Maintains sha256 h).at d.runtime i)

  find_work_in-IsRuntime :
      (now : ℕ) (found : Result (Option SessionInfo)) (d : SessionDriver T C)
      → IsRuntime d.runtime
      → IsRuntime (find_work_in sha256 h error_message random p now found d).1.runtime
  unfolding find_work_in
  find_work_in-IsRuntime now (err e) d i = i
  find_work_in-IsRuntime now (ok none) d i = i
  find_work_in-IsRuntime now (ok (some info)) d i = plan_if-IsRuntime _ now _ d i

  committed-IsRuntime :
      (now : ℕ) (status : ProcessingStatus) (result : Result ProcessNextResult)
      (d : SessionDriver T C)
      → IsRuntime d.runtime
      → IsRuntime (committed sha256 h error_message random p now status result d).1.runtime
  unfolding committed fail
  committed-IsRuntime now status (err e) d i = failed-IsRuntime random p now status _ true d i
  committed-IsRuntime now status (ok result) d i = i

  commit_work-IsRuntime :
      (now : ℕ) (t : PreparedTransition C) (status : ProcessingStatus)
      (receipts : Result (List SubmissionReceipt)) (d : SessionDriver T C)
      → IsRuntime d.runtime
      → IsRuntime (commit_work sha256 h error_message random p now t status receipts d).1.runtime
  unfolding commit_work fail
  commit_work-IsRuntime now t status (err e) d i = failed-IsRuntime random p now status _ false d i
  commit_work-IsRuntime now t status (ok receipts) d i =
      committed-IsRuntime now status _ _ ((commit-Maintains sha256 h now t receipts).at d.runtime i)

  do_work-IsRuntime :
      (round : Round C) (work : Result (Work C)) (d : SessionDriver T C)
      → IsRuntime d.runtime
      → IsRuntime (do_work sha256 h error_message random p round work d).1.runtime
  unfolding do_work
  do_work-IsRuntime round (err e) d i = i
  do_work-IsRuntime round (ok stop) d i = i
  do_work-IsRuntime round (ok (transition t status)) d i =
      commit_work-IsRuntime round.now t status (submit round.provider t d).0 _ (
        run-IsRuntime sha256 h round.between (submit round.provider t d).1.runtime
          (subst IsRuntime (sym (submit-runtime round.provider t d)) i))

  run_round-IsRuntime :
      (round : Round C) (d : SessionDriver T C)
      → IsRuntime d.runtime
      → IsRuntime (run_round sha256 h error_message random p round d).1.runtime
  unfolding run_round find_work
  run_round-IsRuntime round d i = do_work-IsRuntime round _ _ (
      find_work_in-IsRuntime round.now (load_session d.runtime).0 _
        (load_session-Maintains.at d.runtime i))

  schedule-IsRuntime :
      (ended : ℕ) (d : SessionDriver T C)
      → IsRuntime d.runtime
      → IsRuntime (schedule p ended d).runtime
  unfolding schedule
  schedule-IsRuntime ended d i =
      let status = processing_status d.runtime.store.inbox in
      elim (Bool-cases (is_some status.pending_event_id && not status.blocked)) [
        | inl active ↦ rw active i
        | inr idle ↦ rw idle i
      ]

  after_round-IsRuntime :
      (ended : ℕ) (more : Result Bool) (d rest : SessionDriver T C)
      → IsRuntime d.runtime
      → IsRuntime rest.runtime
      → IsRuntime (after_round sha256 h error_message random p ended more d rest).runtime
  unfolding after_round
  after_round-IsRuntime ended (err e) d rest i k = i
  after_round-IsRuntime ended (ok false) d rest i k = schedule-IsRuntime ended d i
  after_round-IsRuntime ended (ok true) d rest i k = k

  drain_from-IsRuntime :
      (started ended step : ℕ) (rounds : List (Round C)) (d : SessionDriver T C)
      → IsRuntime d.runtime
      → IsRuntime (drain_from sha256 h error_message random p started ended step rounds d).runtime
  unfolding drain_from
  drain_from-IsRuntime started ended step [] d i = schedule-IsRuntime ended d i
  drain_from-IsRuntime started ended step (round ∷ rounds) d i =
      let ran = run_round sha256 h error_message random p round d in
      let kept = run_round-IsRuntime round d i in
      elim (Bool-cases (goes_on p started step round.tested)) [
        | inl on ↦ rw on (
            after_round-IsRuntime ended ran.0 ran.1 _ kept
              (drain_from-IsRuntime started ended (suc step) rounds ran.1 kept))
        | inr over ↦ rw over (schedule-IsRuntime ended d i)
      ]

  arm-IsRuntime :
      (armed : ℕ) (d : SessionDriver T C) → IsRuntime d.runtime → IsRuntime (arm p armed d).runtime
  unfolding arm
  arm-IsRuntime armed d i = elim (Bool-cases (later_than d.alarm (armed + p.recovery_ms))) [
    | inl later ↦ rw later i
    | inr earlier ↦ rw earlier i
  ]

  -- A slice of the loop keeps the runtime well formed, at whatever times its rounds run, whatever calls
  -- are admitted between a submission and its commit, whatever the providers answer, and whichever
  -- preparation, submission or commit fails.
  pub drain-IsRuntime :
      (recovery_armed : Bool) (armed started ended : ℕ) (rounds : List (Round C))
      (d : SessionDriver T C)
      → IsRuntime d.runtime
      → IsRuntime
          (drain sha256 h error_message random p recovery_armed armed started ended rounds
            d).runtime
  unfolding drain
  drain-IsRuntime true armed started ended rounds d i =
      drain_from-IsRuntime started ended 0 rounds d i
  drain-IsRuntime false armed started ended rounds d i =
      drain_from-IsRuntime started ended 0 rounds (arm p armed d) (arm-IsRuntime armed d i)
