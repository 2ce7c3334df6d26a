-- ===== src/Runtime/Calls/History.antt =====
-- Histories of a session's database: it is created empty, calls follow each other, and the process
-- may end at any point and start again with a new runtime object over the same database.
use managed_agents.Common.{
  ℕ, String, true, Option, none, some, List, [], ◌∷◌, ◌≡◌, subst, str_eq, Result, ok, err, Failure,
  eq_refl, some_eq,
}
use managed_agents.Contracts.Json.{Json}
use managed_agents.Runtime.Event.{Event}
use managed_agents.Runtime.Storage.{Store, InboxRow, Envelope, next_row, next_input, envelope}
use managed_agents.Runtime.Harness.{HarnessDefinition}
use managed_agents.Runtime.Coherence.{Ready, IsRuntime}
use managed_agents.Runtime.Core.State.{PreparedTransition, SessionRuntime, get_session}
use managed_agents.Runtime.Core.Prepare.{prepare_next}
use managed_agents.Runtime.Core.Admission.{append_input}
use managed_agents.Runtime.Core.Commit.{SubmissionReceipt, commit, is_head}
use managed_agents.Runtime.Core.Completion.{accept_completion}
use managed_agents.Runtime.Core.Initialize.{initialize, new_runtime}
use managed_agents.Runtime.Coherence.{exclusive-Maintains, require_session-Maintains}
use managed_agents.Runtime.Calls.Prepare.{prepare_next-Maintains}
use managed_agents.Runtime.Calls.Append.{append_input-Maintains}
use managed_agents.Runtime.Calls.Commit.{commit-Maintains}
use managed_agents.Runtime.Calls.Complete.{accept_completion-Maintains}
use managed_agents.Runtime.Calls.Initialize.{initialize-Maintains, new_runtime-IsRuntime}

-- A call of a method, with the time at which it runs.
pub data Call (C : Type 0) : Type 0 where
  initialized : ℕ → Json → Call C
  asked : Call C
  appended : ℕ → Json → Call C
  planned : Call C
  committed : ℕ → PreparedTransition C → List SubmissionReceipt → Call C
  completed : ℕ → Json → Call C

-- the tables as `initializeStorage` creates them
abbrev pub empty_store : {T : Type 0} → T → Store T
empty_store tables = record { session = none; inbox = []; pending = []; tables = tables }

abbrev pub failure_of : {A : Type 0} → Result A → Option Failure
failure_of (ok a) = none
failure_of (err e) = some e

module _ {T C : Type 0} (sha256 : String → List ℕ) (h : HarnessDefinition T C) where
  -- the runtime after a call, whether it returned or threw
  unfoldable pub perform : Call C → SessionRuntime T C → SessionRuntime T C
  perform (initialized now value) r = (initialize h now value r).1
  perform asked r = (get_session r).1
  perform (appended now value) r = (append_input sha256 h now value r).1
  perform planned r = (prepare_next sha256 h r).1
  perform (committed now p receipts) r = (commit sha256 now h p receipts r).1
  perform (completed now value) r = (accept_completion sha256 h now value r).1

  -- the error with which a call throws
  unfoldable pub thrown : Call C → SessionRuntime T C → Option Failure
  thrown (initialized now value) r = failure_of (initialize h now value r).0
  thrown asked r = failure_of (get_session r).0
  thrown (appended now value) r = failure_of (append_input sha256 h now value r).0
  thrown planned r = failure_of (prepare_next sha256 h r).0
  thrown (committed now p receipts) r = failure_of (commit sha256 now h p receipts r).0
  thrown (completed now value) r = failure_of (accept_completion sha256 h now value r).0

  unfoldable pub run : List (Call C) → SessionRuntime T C → SessionRuntime T C
  run [] r = r
  run (call ∷ calls) r = run calls (perform call r)

  -- the states of a runtime that histories lead to
  pub data Reachable : SessionRuntime T C → Type 0 where
    opened :
        (tables : T) {r : SessionRuntime T C}
        → new_runtime h (empty_store tables) ≡ ok r
        → Reachable r
    called : (call : Call C) {r : SessionRuntime T C} → Reachable r → Reachable (perform call r)
    restarted :
        (r : SessionRuntime T C) {s : SessionRuntime T C}
        → Reachable r
        → new_runtime h r.store ≡ ok s
        → Reachable s

  perform-IsRuntime :
      (call : Call C) (r : SessionRuntime T C) → IsRuntime r → IsRuntime (perform call r)
  unfolding perform get_session
  perform-IsRuntime (initialized now value) r i = (initialize-Maintains h now value).at r i
  perform-IsRuntime asked r i = (exclusive-Maintains _ require_session-Maintains).at r i
  perform-IsRuntime (appended now value) r i = (append_input-Maintains sha256 h now value).at r i
  perform-IsRuntime planned r i = (prepare_next-Maintains sha256 h).at r i
  perform-IsRuntime (committed now p receipts) r i =
      (commit-Maintains sha256 h now p receipts).at r i
  perform-IsRuntime (completed now value) r i =
      (accept_completion-Maintains sha256 h now value).at r i

  pub run-IsRuntime :
      (calls : List (Call C)) (r : SessionRuntime T C) → IsRuntime r → IsRuntime (run calls r)
  unfolding run
  run-IsRuntime [] r i = i
  run-IsRuntime (call ∷ calls) r i =
      run-IsRuntime calls (perform call r) (perform-IsRuntime call r i)

  -- Every state of a runtime that calls and restarts lead to from an empty database is well formed.
  pub Reachable-IsRuntime : (r : SessionRuntime T C) → Reachable r → IsRuntime r
  Reachable-IsRuntime r (opened tables e) =
      new_runtime-IsRuntime h _ r
        (record { inbox = record { ascending = tt; distinct = tt; held = tt }; pending = tt }) e
  Reachable-IsRuntime _ (called call {r} k) = perform-IsRuntime call r (Reachable-IsRuntime _ k)
  Reachable-IsRuntime s (restarted r k e) =
      new_runtime-IsRuntime h r.store s (Reachable-IsRuntime r k).store e

  pub run-Reachable :
      (calls : List (Call C)) (r : SessionRuntime T C) → Reachable r → Reachable (run calls r)
  unfolding run
  run-Reachable [] r k = k
  run-Reachable (call ∷ calls) r k = run-Reachable calls (perform call r) (called call k)

  envelope-event_id :
      (row : InboxRow) (event : Option Event) (input : Envelope)
      → (elim event [
        | none ↦ none
        | some e ↦ some (record {
          event_id = row.event_id;
          sequence = row.sequence;
          received_at = row.received_at;
          event = e;
        })
      ])
        ≡ some input
      → str_eq row.event_id input.event_id ≡ true
  envelope-event_id row none input e = cc
  envelope-event_id row (some event) input e =
      subst (λ i. str_eq row.event_id i.event_id ≡ true) (some_eq e) (eq_refl row.event_id)

  next_row-is_head :
      (rows : List InboxRow) (found : Option InboxRow) (input : Envelope)
      → (elim found [ none ↦ none | some r ↦ envelope r ]) ≡ some input
      → is_head found input.event_id ≡ true
  unfolding envelope is_head
  next_row-is_head rows none input e = cc
  next_row-is_head rows (some row) input e = envelope-event_id row row.event input e

  -- In every reachable state a held transition is that of the first waiting input, so its commit is
  -- not refused as stale.
  pub prepared-is_head :
      (r : SessionRuntime T C) (p : PreparedTransition C)
      → Reachable r
      → r.prepared ≡ some p
      → is_head (next_row r.store.inbox) p.input.event_id ≡ true
  unfolding next_input
  prepared-is_head r p k held =
      next_row-is_head r.store.inbox (next_row r.store.inbox) p.input
        (subst (λ held. Ready held r.store.inbox) held (Reachable-IsRuntime r k).ready)
