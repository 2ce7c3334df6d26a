-- ===== src/Pi/Plan.antt =====
-- The end of `handle` of packages/harness-pi-no-compaction/src/harness.ts: the plan of a transition.
use managed_agents.Common.{
  ℕ, ◌-◌, String, Bool, Option, none, some, if◌then◌else◌, str_eq, Result, ok, err, harness_failure,
}
use managed_agents.Contracts.Json.{
  Json, null, str, num, obj, field, end, whole, negative, stringify,
}
use managed_agents.Runtime.Harness.{TransitionPlan}
use managed_agents.Pi.Tables.{Phase, State, Reference, stored, proposed, PiError}
use managed_agents.Pi.Work.{Changes, Work, fail}

abbrev text_json : Option String → Json
text_json none = null
text_json (some text) = str text

-- a message that the transition proposes has a negative number
abbrev reference_json : Option Reference → Json
reference_json none = null
reference_json (some (stored n)) = num (whole n)
reference_json (some (proposed n)) = num (negative (n - 1))

abbrev error_json : Option PiError → Json
error_json none = null
error_json (some e) =
    str (stringify (obj (field "code" (str e.code) (field "message" (str e.message) end))))

abbrev flag_json : Bool → Json
flag_json flag = num (whole (if flag then 1 else 0))

-- the row that `readState` reads, by its columns
abbrev pub row_json :
    String → Option String → Option String → Option Reference → ℕ → ℕ → Bool → Option PiError → Json
row_json phase run_id operation_id reference next turns cancelling failure = obj (
    field "singleton" (num (whole 1)) (
      field "phase" (str phase) (
        field "run_id" (text_json run_id) (
          field "active_operation_id" (text_json operation_id) (
            field "active_assistant_sequence" (reference_json reference) (
              field "next_tool_index" (num (whole next)) (
                field "turn_count" (num (whole turns)) (
                  field "cancel_requested" (flag_json cancelling)
                    (field "last_error_json" (error_json failure) end)))))))))

abbrev phase_text : Phase → String
phase_text Phase.idle = "idle"
phase_text Phase.llm = "llm"
phase_text Phase.tools = "tools"
phase_text Phase.cancelled = "cancelled"
phase_text Phase.failed = "failed"

-- `JSON.stringify(s)`
unfoldable pub state_text : State → String
state_text s = stringify (
    row_json (phase_text s.phase) s.run_id s.active_operation_id s.active_assistant_sequence
      s.next_tool_index s.turn_count s.cancel_requested s.last_error)

unfoldable pub states_equal : State → State → Bool
states_equal a b = str_eq (state_text a) (state_text b)

abbrev changed_state : State → State → Option State
changed_state before after = if states_equal after before then none else some after

unfoldable pub plan_of : State → Work → TransitionPlan Changes
plan_of before w = record {
  changes = record w.changes { state = changed_state before w.state };
  operations = w.operations;
  status = w.status;
}

-- the `catch`: a HarnessFailure fails the run, whatever was changed before it
unfoldable pub conclude : State → Result (Unit {0}) → Work → Result (TransitionPlan Changes)
conclude before (ok done) w = ok (plan_of before w)
conclude before (err (harness_failure c m)) w =
    ok (plan_of before (fail (record { code = c; message = m }) w))
conclude before (err e) w = err e
