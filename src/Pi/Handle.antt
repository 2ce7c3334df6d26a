-- ===== src/Pi/Handle.antt =====
-- `handle` of packages/harness-pi-no-compaction/src/harness.ts.
use managed_agents.Common.{
  ℕ, String, Bool, true, false, not, ◌&&◌, Option, none, some, if◌then◌else◌, [], ◌∷◌, str_eq,
  Result,
}
use managed_agents.Contracts.Text.{concat, decimal}
use managed_agents.Contracts.Json.{Json, str}
use managed_agents.Contracts.Operation.{OperationOutcome}
use managed_agents.Runtime.Storage.{Envelope}
use managed_agents.Runtime.Harness.{HarnessStatus, TransitionPlan, ReadContext}
use managed_agents.Pi.Config.{PiConfig}
use managed_agents.Pi.Tables.{Phase, State, Tables, PendingRow}
use managed_agents.Pi.Work.{Changes, Work, Turn, start, modify, assert_message_size, append}
use managed_agents.Common.Exec.{pure, lift, ◌>>◌}
use managed_agents.Pi.Input.{Input, message, cancel, resume, completed, other, input_of}
use managed_agents.Pi.Plan.{conclude}
use managed_agents.Pi.Turn.{input_message, promote_steering, request_llm}
use managed_agents.Pi.Completion.{complete_llm, complete_tool}

abbrev pub run_name : ℕ → String
run_name sequence = concat ("run_" ∷ decimal sequence ∷ [])

abbrev new_run : String → Work → Work
new_run run_id w = record w {
  status = some HarnessStatus.running;
  state = record w.state {
    run_id = some run_id;
    turn_count = 0;
    last_error = none;
    cancel_requested = false;
  };
}

abbrev request_cancel : Work → Work
request_cancel w = record w {
  status = some HarnessStatus.cancelling;
  state = record w.state { cancel_requested = true };
}

abbrev keep_pending : PendingRow → Work → Work
keep_pending row w = record w { changes = record w.changes { pending = some row } }

unfoldable pub option_equals : Option String → String → Bool
option_equals none s = false
option_equals (some r) s = str_eq r s

abbrev is_running : Phase → Bool
is_running Phase.llm = true
is_running Phase.tools = true
is_running _ = false

abbrev is_idle : Phase → Bool
is_idle Phase.idle = true
is_idle _ = false

abbrev is_stopped : Phase → Bool
is_stopped Phase.cancelled = true
is_stopped Phase.failed = true
is_stopped _ = false

module _ (parse_json : String → Result Json) (over_limit : String → Bool) (config : PiConfig)
    (read : ReadContext) (t : Tables) where
  -- a run begins with the message, or with the messages that wait
  unfoldable pub start_run : Envelope → Json → Turn (Unit {0})
  start_run input value = do
    modify (new_run (run_name input.sequence))
    append (input_message value (some (run_name input.sequence)) input.event_id)
    request_llm config read t

  unfoldable pub resume_run : Envelope → Turn (Unit {0})
  resume_run input = do
    modify (new_run (run_name input.sequence))
    promote_steering t
    request_llm config read t

  unfoldable pub keep_message : Envelope → Json → Turn (Unit {0})
  keep_message input value = do
    lift (assert_message_size (value ∷ str input.event_id ∷ []))
    modify (
        keep_pending
          (record { event_id = input.event_id; input_sequence = input.sequence; message = value }))

  -- the completion of an operation, by the phase
  unfoldable pub complete : Phase → Option String → OperationOutcome → String → Turn (Unit {0})
  complete Phase.tools expected outcome operation_id =
      complete_tool parse_json over_limit config read t outcome operation_id
  complete Phase.llm expected outcome operation_id =
      if option_equals expected operation_id
      then complete_llm parse_json over_limit config read t outcome operation_id
      else pure tt
  complete _ expected outcome operation_id = pure tt

  -- the branches of the `switch`, at the state before the transition
  unfoldable pub react : State → Envelope → Input → Turn (Unit {0})
  react s input (message value) =
      if is_idle s.phase then start_run input value else keep_message input value
  react s input (cancel run_id) =
      if option_equals s.run_id run_id && is_running s.phase && not s.cancel_requested
      then modify request_cancel
      else pure tt
  react s input resume = if is_stopped s.phase then resume_run input else pure tt
  react s input (completed operation_id outcome) =
      complete s.phase s.active_operation_id outcome operation_id
  react s input other = pure tt

  unfoldable pub react_all : State → Envelope → Result (TransitionPlan Changes)
  react_all s input =
      let (result, w) = react s input (input_of input.event) (start s) in conclude s result w
