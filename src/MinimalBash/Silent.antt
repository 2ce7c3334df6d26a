-- ===== src/MinimalBash/Silent.antt =====
-- A run of packages/harness-minimal-bash/src/harness.ts that fails asks for nothing.
use managed_agents.Pi.Work.{assert_message_size}
use managed_agents.Pi.Tables.{Reference}
use mathlib.Core.Option
use managed_agents.Common.{
  none, inl, inr, sym, str_eq, eq_iff, Bool-cases, ◌&&◌, not, if◌then◌else◌, ◌≡◌, refl, ap, String,
  Bool, true, false, some, List, [], ◌∷◌, Result, ok, err, harness_failure,
}
use managed_agents.Common.Exec.{pure, throw, lift}
use managed_agents.Contracts.Json.{str, Json}
use managed_agents.Contracts.Operation.{OperationOutcome}
use managed_agents.Runtime.Harness.{ReadContext, PlannedOperation, TransitionPlan, HarnessStatus}
use managed_agents.Runtime.Storage.{Envelope}
use managed_agents.MinimalBash.Config.{BashConfig}
use managed_agents.MinimalBash.State.{Phase, State, Tables}
use managed_agents.MinimalBash.Calls.{ToolCall}
use managed_agents.MinimalBash.Work.{
  fail, Work, Changes, Turn, modify, append, promote_steering, start,
}
use managed_agents.MinimalBash.Completion.{is_empty, checked_calls}
use managed_agents.MinimalBash.Handle.{
  state_text, states_equal, plan_of, use_calls, complete_llm, complete, react, react_all, start_run,
  resume_run, keep_message, input_of, conclude, new_run, accept_response, open_calls, is_idle,
  is_stopped, is_running, request_cancel,
}
use managed_agents.MinimalBash.Quiet.{
  >>=-Keeps, Refuses, by_keeping, lift-Keeps, >>=-Refuses, kept-Refuses, append-Keeps,
  promote_steering-Keeps, returned-Refuses, throws_only, Computes,
}
use managed_agents.MinimalBash.Refusals.{
  request_llm-Refuses, finish_turn-Refuses, advance_tools-Refuses, complete_bash-Refuses,
}
use managed_agents.Pi.Input.{Input, message, cancel, resume, completed, other}
use managed_agents.Pi.Response.{llm_result}
use managed_agents.Pi.Completion.{response_message}
use managed_agents.Pi.Handle.{option_equals, run_name}

-- what the row is after a transition that writes it only if its text is another
written-text :
    (after before : State)
    → state_text (Option.get_or (if states_equal after before then none else some after) before)
      ≡ state_text after
unfolding states_equal
written-text after before = elim (Bool-cases (str_eq (state_text after) (state_text before))) [
  | inl same ↦ rw same (sym ((eq_iff (state_text after) (state_text before)).0 same))
  | inr new ↦ rw new refl
]

module _ (parse_json : String → Result Json) (over_limit : String → Bool) (config : BashConfig)
    (read : ReadContext) (t : Tables) (honest : Computes read) where
  use_calls-Refuses :
      (asked : List PlannedOperation) (calls : List ToolCall) (w : Work) (row : Reference)
      → w.operations ≡ asked
      → Refuses asked (use_calls parse_json over_limit config read t row calls w)
  unfolding use_calls is_empty
  use_calls-Refuses asked [] w row h =
      finish_turn-Refuses parse_json over_limit config read t honest asked false w h
  use_calls-Refuses asked (call ∷ calls) w row h =
      advance_tools-Refuses parse_json over_limit config read t honest asked (call ∷ calls)
        (open_calls row w) h

  complete_llm-Refuses :
      (asked : List PlannedOperation) (outcome : OperationOutcome) (id : String) (w : Work)
      → w.operations ≡ asked
      → Refuses asked (complete_llm parse_json over_limit config read t outcome id w)
  unfolding complete_llm
  complete_llm-Refuses asked outcome id w h =
      >>=-Refuses asked (lift (llm_result outcome)) _ w (lift-Keeps _) h (λ result w₁ h₁.
        >>=-Refuses asked (append (response_message result w₁.state.run_id id)) _ w₁
          (append-Keeps _) h₁
          (λ row w₂ h₂.
            >>=-Refuses asked (lift (checked_calls config result)) _ w₂ (lift-Keeps _) h₂
              (λ calls w₃ h₃. use_calls-Refuses asked calls (accept_response row w₃) row h₃)))

  start_run-Refuses :
      (asked : List PlannedOperation) (input : Envelope) (value : Json) (w : Work)
      → w.operations ≡ asked
      → Refuses asked (start_run parse_json over_limit config read t input value w)
  unfolding start_run
  start_run-Refuses asked input value w h =
      >>=-Refuses asked (append _) _ (new_run (run_name input.sequence) w) (append-Keeps _) h
        (λ _ w₁ h₁. request_llm-Refuses parse_json over_limit config read t honest asked w₁ h₁)

  resume_run-Refuses :
      (asked : List PlannedOperation) (input : Envelope) (w : Work)
      → w.operations ≡ asked
      → Refuses asked (resume_run parse_json over_limit config read t input w)
  unfolding resume_run
  resume_run-Refuses asked input w h =
      >>=-Refuses asked (promote_steering t) _ (new_run (run_name input.sequence) w)
        (promote_steering-Keeps t) h
        (λ _ w₁ h₁. request_llm-Refuses parse_json over_limit config read t honest asked w₁ h₁)

  keep_message-Refuses :
      (asked : List PlannedOperation) (input : Envelope) (value : Json) (w : Work)
      → w.operations ≡ asked
      → Refuses asked (keep_message parse_json over_limit config read t input value w)
  unfolding keep_message
  keep_message-Refuses asked input value w h =
      kept-Refuses asked (keep_message parse_json over_limit config read t input value) w
        (>>=-Keeps (lift (assert_message_size (value ∷ str input.event_id ∷ []))) _ (lift-Keeps _)
          (λ _. by_keeping _ (λ w. refl)))
        h

  complete-Refuses :
      (asked : List PlannedOperation) (phase : Phase) (outcome : OperationOutcome) (id : String)
      (w : Work)
      → w.operations ≡ asked
      → Refuses asked (complete parse_json over_limit config read t phase outcome id w)
  unfolding complete
  complete-Refuses asked Phase.llm outcome id w h = complete_llm-Refuses asked outcome id w h
  complete-Refuses asked Phase.bash outcome id w h =
      complete_bash-Refuses parse_json over_limit config read t honest asked outcome id w h
  complete-Refuses asked Phase.idle outcome id w h =
      kept-Refuses asked (throw _) w (throws_only _ _ (λ w. refl)) h
  complete-Refuses asked Phase.cancelled outcome id w h =
      kept-Refuses asked (throw _) w (throws_only _ _ (λ w. refl)) h
  complete-Refuses asked Phase.failed outcome id w h =
      kept-Refuses asked (throw _) w (throws_only _ _ (λ w. refl)) h

  -- either branch refuses
  if-Refuses :
      (asked : List PlannedOperation) (test : Bool) (first second : Turn (Unit {0})) (w : Work)
      → Refuses asked (first w)
      → Refuses asked (second w)
      → Refuses asked ((if test then first else second) w)
  if-Refuses asked true first second w h k = h
  if-Refuses asked false first second w h k = k

  react-Refuses :
      (s : State) (envelope : Envelope) (input : Input)
      → Refuses [] (react parse_json over_limit config read t s envelope input (start s))
  unfolding react
  react-Refuses s envelope (message value) =
      if-Refuses [] (is_idle s.phase) _ _ (start s)
        (start_run-Refuses [] envelope value (start s) refl)
        (keep_message-Refuses [] envelope value (start s) refl)
  react-Refuses s envelope (cancel run_id) =
      if-Refuses [] (option_equals s.run_id run_id && is_running s.phase && not s.cancel_requested)
        (modify request_cancel) (pure tt) (start s) (returned-Refuses [] (request_cancel (start s)))
        (returned-Refuses [] (start s))
  react-Refuses s envelope resume =
      if-Refuses [] (is_stopped s.phase) _ _ (start s)
        (resume_run-Refuses [] envelope (start s) refl) (returned-Refuses [] _)
  react-Refuses s envelope (completed id outcome) =
      if-Refuses [] (option_equals s.active_operation_id id) _ _ (start s)
        (complete-Refuses [] s.phase outcome id (start s) refl) (returned-Refuses [] _)
  react-Refuses s envelope other = returned-Refuses [] _

  -- A transition that ends in a HarnessFailure asks for no operation, whatever it had done before, provided
  -- that the calculation of an operation's identity does not itself end in one. It reports the status
  -- failed, and the state row after it, by its JSON text, is that of a run that is failed with that
  -- failure, waits for nothing, and has no cancellation requested.
  pub react_all-failed :
      (s : State) (envelope : Envelope) (c m : String)
      → (react parse_json over_limit config read t s envelope (input_of envelope.event) (start s)).0
        ≡ err (harness_failure c m)
      → (plan : TransitionPlan Changes) × (after : State) × (react_all parse_json over_limit config
            read t s envelope
          ≡ ok plan)
        × (plan.operations ≡ [])
        × (plan.status ≡ some HarnessStatus.failed)
        × (state_text (Option.get_or plan.changes.state s) ≡ state_text after)
        × (after.phase ≡ Phase.failed)
        × (after.last_error ≡ some (record { code = c; message = m }))
        × (after.active_operation_id ≡ none)
        × (after.active_assistant_sequence ≡ none)
        × (after.next_tool_index ≡ 0)
        × (after.cancel_requested ≡ false)
  unfolding react_all conclude plan_of fail Refuses
  react_all-failed s envelope c m e =
      let call =
        react parse_json over_limit config read t s envelope (input_of envelope.event) (start s) in
      let stopped = fail (record { code = c; message = m }) call.1 in
      (
        plan_of s stopped,
        stopped.state,
        ap (λ result. conclude s result call.1) e,
        react-Refuses s envelope (input_of envelope.event) c m e,
        refl,
        written-text stopped.state s,
        refl,
        refl,
        refl,
        refl,
        refl,
        refl,
      )
