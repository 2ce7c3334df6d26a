-- ===== src/MinimalBash/Handle.antt =====
-- `completeLlm` and `handle` of packages/harness-minimal-bash/src/harness.ts.
use managed_agents.Common.{
  String, Bool, true, false, not, ◌&&◌, none, some, if◌then◌else◌, List, [], ◌∷◌, str_eq, Result,
  ok, err, harness_failure, error,
}
use managed_agents.Common.Exec.{pure, throw, lift, gets, ◌>>=◌, ◌>>◌}
use managed_agents.Contracts.Json.{Json, str, stringify}
use managed_agents.Contracts.Operation.{OperationOutcome}
use managed_agents.Runtime.Event.{Event, external, operation_completed}
use managed_agents.Runtime.Storage.{Envelope}
use managed_agents.Runtime.Harness.{HarnessStatus, TransitionPlan, ReadContext}
use managed_agents.MinimalBash.Config.{BashConfig}
use managed_agents.MinimalBash.Calls.{ToolCall}
use managed_agents.MinimalBash.State.{Phase, State, Tables}
use managed_agents.MinimalBash.Work.{
  Changes, Work, Turn, start, modify, append, fail, promote_steering, request_llm, finish_turn,
}
use managed_agents.MinimalBash.Commands.{advance_tools, complete_bash}
use managed_agents.MinimalBash.Completion.{is_empty, checked_calls}
use managed_agents.Pi.Tables.{Reference, PendingRow}
use managed_agents.Pi.Work.{assert_message_size}
use managed_agents.Pi.Turn.{input_message}
use managed_agents.Pi.Response.{llm_result}
use managed_agents.Pi.Completion.{admit_message, index_of, response_message}
use managed_agents.Pi.Input.{
  Input, message, cancel, resume, completed, other, payload_field, message_input, cancel_input,
}
use managed_agents.Pi.Plan.{row_json}
use managed_agents.Pi.Handle.{option_equals, run_name}

unfoldable pub input_of : Event → Input
input_of (operation_completed id provider job_id outcome) = completed id outcome
input_of (external type payload) =
    if str_eq type "minimal_bash.message"
    then message_input (payload_field "message" payload)
    else if str_eq type "minimal_bash.cancel"
    then cancel_input (payload_field "runId" payload)
    else if str_eq type "minimal_bash.resume"
    then resume
    else other

abbrev phase_text : Phase → String
phase_text Phase.idle = "idle"
phase_text Phase.llm = "llm"
phase_text Phase.bash = "bash"
phase_text Phase.cancelled = "cancelled"
phase_text Phase.failed = "failed"

-- `JSON.stringify(s)`
unfoldable pub state_text : State → String
state_text s = stringify (
    row_json (phase_text s.phase) s.run_id s.active_operation_id s.active_assistant_sequence
      s.next_tool_index s.turn_count s.cancel_requested s.last_error)

unfoldable pub states_equal : State → State → Bool
states_equal a b = str_eq (state_text a) (state_text b)

unfoldable pub plan_of : State → Work → TransitionPlan Changes
plan_of before w = record {
  changes = record w.changes { state = if states_equal w.state before then none else some w.state };
  operations = w.operations;
  status = w.status;
}

unfoldable pub conclude : State → Result (Unit {0}) → Work → Result (TransitionPlan Changes)
conclude before (ok done) w = ok (plan_of before w)
conclude before (err (harness_failure c m)) w =
    ok (plan_of before (fail (record { code = c; message = m }) w))
conclude before (err e) w = err e

abbrev pub accept_response : Reference → Work → Work
accept_response row w = record w {
  changes = record w.changes { messages = admit_message (index_of row) w.changes.messages };
  state = record w.state { active_operation_id = none };
}

abbrev pub open_calls : Reference → Work → Work
open_calls row w = record w {
  state = record w.state { active_assistant_sequence = some row; next_tool_index = 0 };
}

abbrev pub new_run : String → Work → Work
new_run run_id w = record w {
  status = some HarnessStatus.running;
  state = record w.state {
    run_id = some run_id;
    turn_count = 0;
    last_error = none;
    cancel_requested = false;
  };
}

abbrev pub request_cancel : Work → Work
request_cancel w = record w {
  status = some HarnessStatus.cancelling;
  state = record w.state { cancel_requested = true };
}

abbrev keep_pending : PendingRow → Work → Work
keep_pending row w = record w { changes = record w.changes { pending = some row } }

abbrev pub is_running : Phase → Bool
is_running Phase.llm = true
is_running Phase.bash = true
is_running _ = false

abbrev pub is_idle : Phase → Bool
is_idle Phase.idle = true
is_idle _ = false

abbrev pub is_stopped : Phase → Bool
is_stopped Phase.cancelled = true
is_stopped Phase.failed = true
is_stopped _ = false

module _ (parse_json : String → Result Json) (over_limit : String → Bool) (config : BashConfig)
    (read : ReadContext) (t : Tables) where
  unfoldable pub use_calls : Reference → List ToolCall → Turn (Unit {0})
  use_calls row calls =
      if is_empty calls
      then finish_turn config read t false
      else modify (open_calls row) >> advance_tools parse_json over_limit config read t calls

  unfoldable pub complete_llm : OperationOutcome → String → Turn (Unit {0})
  complete_llm outcome operation_id = do
    result ← lift (llm_result outcome)
    run_id ← gets (λ w. w.state.run_id)
    row ← append (response_message result run_id operation_id)
    calls ← lift (checked_calls config result)
    modify (accept_response row)
    use_calls row calls

  unfoldable pub start_run : Envelope → Json → Turn (Unit {0})
  start_run input value = do
    modify (new_run (run_name input.sequence))
    append (input_message value (some (run_name input.sequence)) input.event_id)
    request_llm config read t

  unfoldable pub resume_run : Envelope → Turn (Unit {0})
  resume_run input = do
    modify (new_run (run_name input.sequence))
    promote_steering t
    request_llm config read t

  unfoldable pub keep_message : Envelope → Json → Turn (Unit {0})
  keep_message input value = do
    lift (assert_message_size (value ∷ str input.event_id ∷ []))
    modify (
        keep_pending
          (record { event_id = input.event_id; input_sequence = input.sequence; message = value }))

  -- the completion of the active operation, by the phase
  unfoldable pub complete : Phase → OperationOutcome → String → Turn (Unit {0})
  complete Phase.llm outcome operation_id = complete_llm outcome operation_id
  complete Phase.bash outcome operation_id =
      complete_bash parse_json over_limit config read t outcome operation_id
  complete _ outcome operation_id = throw (error "Completion arrived without an active model turn.")

  -- the branches of the `switch`, at the state before the transition
  unfoldable pub react : State → Envelope → Input → Turn (Unit {0})
  react s input (message value) =
      if is_idle s.phase then start_run input value else keep_message input value
  react s input (cancel run_id) =
      if option_equals s.run_id run_id && is_running s.phase && not s.cancel_requested
      then modify request_cancel
      else pure tt
  react s input resume = if is_stopped s.phase then resume_run input else pure tt
  react s input (completed operation_id outcome) =
      if option_equals s.active_operation_id operation_id
      then complete s.phase outcome operation_id
      else pure tt
  react s input other = pure tt

  unfoldable pub react_all : State → Envelope → Result (TransitionPlan Changes)
  react_all s input =
      let (result, w) = react s input (input_of input.event) (start s) in conclude s result w
