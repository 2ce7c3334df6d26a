-- ===== src/Pi/Stale.antt =====
-- Inputs of packages/harness-pi-no-compaction/src/harness.ts that come too late.
use managed_agents.Common.{
  subst, str_eq, eq_iff, eq_refl, Bool-cases, List, ◌∷◌, some_eq, All, ◌≢◌, arith, ◌≡◌, refl, ap,
  String, Bool, true, false, Option, none, some, Option-cases, inl, inr, [], find, ok, Result,
}
use managed_agents.Contracts.Json.{Json}
use managed_agents.Contracts.Operation.{OperationOutcome}
use managed_agents.Runtime.Storage.{Envelope}
use managed_agents.Runtime.Harness.{ReadContext, TransitionPlan}
use managed_agents.Pi.Config.{PiConfig}
use managed_agents.Pi.Tables.{
  BatchRow, BatchStatus, queued, done, active, is_active, State, Phase, Tables,
}
use managed_agents.Pi.Work.{Work, Changes, no_changes, start}
use managed_agents.Pi.Completion.{is_row_of, complete_tool, complete_row}
use managed_agents.Pi.Input.{completed, input_of}
use managed_agents.Pi.Plan.{states_equal, state_text, plan_of, conclude}
use managed_agents.Pi.Handle.{complete, react, react_all, option_equals}

-- The run does not wait for the operation: it is not the active one of a model request, nor that of a
-- call that was started and has no result yet.
abbrev pub NotAwaited : Tables → State → String → Type 0
NotAwaited t s id =
    (s.phase ≡ Phase.llm → s.active_operation_id ≢ some id)
    × (s.phase ≡ Phase.tools
        → All (λ row. row.status ≡ active → row.operation_id ≢ some id) t.batch)

abbrev pub no_plan : TransitionPlan Changes
no_plan = record { changes = no_changes; operations = []; status = none }

plan_of-start : (s : State) → plan_of s (start s) ≡ no_plan
unfolding plan_of states_equal
plan_of-start s = rw (eq_refl (state_text s)) refl

own_id :
    (own : Option String) (id : String)
    → elim own [ none ↦ false | some key ↦ str_eq key id ] ≡ true
    → own ≡ some id
own_id none id e = cc
own_id (some key) id e = ap some ((eq_iff key id).0 e)

status-active :
    (status : BatchStatus) → elim status [ active ↦ true | _ ↦ false ] ≡ true → status ≡ active
status-active active e = refl
status-active queued e = cc
status-active done e = cc

is_row_of-active :
    (id : String) (row : BatchRow)
    → is_row_of id row ≡ true
    → (row.status ≡ active) × (row.operation_id ≡ some id)
unfolding is_row_of
is_row_of-active id row e = elim (Bool-cases (is_active row)) [
  | inl running ↦ (status-active row.status running, own_id row.operation_id id (ground (arith, e)))
  | inr idle ↦ absurd (ground (arith, e))
]

option_equals-eq : (a : Option String) (id : String) → option_equals a id ≡ true → a ≡ some id
unfolding option_equals
option_equals-eq none id e = cc
option_equals-eq (some own) id e = ap some ((eq_iff own id).0 e)

find-All :
    (P : BatchRow → Type 0) (test : BatchRow → Bool) (rows : List BatchRow) (row : BatchRow)
    → All P rows
    → find test rows ≡ some row
    → P row × (test row ≡ true)
find-All P test [] row a e = cc
find-All P test (r ∷ rows) row (p, a) e = elim (Bool-cases (test r)) [
  | inl hit ↦ subst (λ x. P x × (test x ≡ true)) (some_eq (simp hit at e)) (p, hit)
  | inr miss ↦ find-All P test rows row a (simp miss at e)
]

module _ (parse_json : String → Result Json) (over_limit : String → Bool) (config : PiConfig)
    (read : ReadContext) (t : Tables) where
  complete-stale :
      (s : State) (id : String) (outcome : OperationOutcome) (w : Work) (phase : Phase)
      → s.phase ≡ phase
      → NotAwaited t s id
      → complete parse_json over_limit config read t phase s.active_operation_id outcome id w
        ≡ (ok tt, w)
  unfolding complete complete_tool complete_row
  complete-stale s id outcome w Phase.tools at late =
      elim (Option-cases (find (is_row_of id) t.batch)) [
        | inl absent ↦ rw absent refl
        | inr (row, found) ↦
            let (free, chosen) =
              find-All (λ r. r.status ≡ active → r.operation_id ≢ some id) (is_row_of id) t.batch
                row (late.1 at) found in
            let (running, own) = is_row_of-active id row chosen in absurd (free running own)
      ]
  complete-stale s id outcome w Phase.llm at late =
      elim (Bool-cases (option_equals s.active_operation_id id)) [
        | inl same ↦ absurd (late.0 at (option_equals-eq s.active_operation_id id same))
        | inr other ↦ rw other refl
      ]
  complete-stale s id outcome w Phase.idle at late = refl
  complete-stale s id outcome w Phase.cancelled at late = refl
  complete-stale s id outcome w Phase.failed at late = refl

  -- The completion of an operation changes nothing and asks for nothing, whatever its outcome, if in the
  -- model phase it is not the run's active operation and in the tool phase it is not the operation of an
  -- active row of the batch.
  pub react_all-stale :
      (s : State) (input : Envelope) (id : String) (outcome : OperationOutcome)
      → input_of input.event ≡ completed id outcome
      → NotAwaited t s id
      → react_all parse_json over_limit config read t s input ≡ ok no_plan
  unfolding react_all react conclude
  react_all-stale s input id outcome e late =
      rw (e, complete-stale s id outcome (start s) s.phase refl late) (ap ok (plan_of-start s))
