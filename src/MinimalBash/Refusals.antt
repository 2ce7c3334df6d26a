-- ===== src/MinimalBash/Refusals.antt =====
-- What a turn of packages/harness-minimal-bash/src/harness.ts asks for if it ends in a HarnessFailure.
use managed_agents.MinimalBash.Quiet.{
  Refuses, lift-Keeps, throws_only, gets-Keeps, >>=-Keeps, >>=-Refuses, kept-Refuses,
  promote_steering-Keeps, skip_calls-Keeps, settle_bash-Keeps, refuse_arguments-Keeps, Computes,
  planned-Refuses, returned-Refuses,
}
use managed_agents.Pi.Batch.{skip}
use managed_agents.Common.{
  ◌||◌, ◌≡◌, refl, String, Bool, true, false, Option, none, some, List, [], ◌∷◌, Result, ok, err,
  harness_failure, contract, syntax_error, error, gateway_error, if◌then◌else◌,
}
use managed_agents.Common.Exec.{throw, lift, gets, ◌>>◌}
use managed_agents.Contracts.Json.{Json}
use managed_agents.Contracts.Operation.{OperationOutcome, OperationRequest}
use managed_agents.Runtime.Harness.{ReadContext, PlannedOperation}
use managed_agents.MinimalBash.Config.{BashConfig}
use managed_agents.MinimalBash.State.{Tables}
use managed_agents.MinimalBash.Calls.{build_llm_input, ToolCall}
use managed_agents.MinimalBash.Work.{
  cancel, request_with, send_llm, await_llm, rest, clear_turn, in_context, Work, Turn, modify,
  plan_operation, promote_steering, request_llm, finish_turn, finish_steered,
}
use managed_agents.MinimalBash.Commands.{
  active_call, current_calls, run_command, finish_command, refuse_arguments, start_call, skip_calls,
  advance_calls, advance_tools, after_bash, complete_bash, settle_bash,
}
use managed_agents.Pi.Tables.{PiError}

module _ (parse_json : String → Result Json) (over_limit : String → Bool) (config : BashConfig)
    (read : ReadContext) (t : Tables) (honest : Computes read) where
  pub request_llm-Refuses :
      (asked : List PlannedOperation) (w : Work)
      → w.operations ≡ asked
      → Refuses asked (request_llm config read t w)
  unfolding request_llm request_with send_llm plan_operation
  request_llm-Refuses asked w h =
      >>=-Refuses asked (gets in_context) (request_with config read t) w (gets-Keeps in_context) h
        (λ appended w₁ h₁.
          >>=-Refuses asked
            (lift (build_llm_input config read.session.identity.session_id t.messages appended))
            (send_llm read) w₁ (lift-Keeps _) h₁
            (λ input w₂ h₂.
              planned-Refuses asked (read.operation_id "llm") await_llm _ (honest "llm")))

  finish_steered-Refuses :
      (asked : List PlannedOperation) (had_tools : Bool) (w : Work)
      → w.operations ≡ asked
      → Refuses asked (finish_steered config read t had_tools w)
  unfolding finish_steered
  finish_steered-Refuses asked had_tools w h =
      >>=-Refuses asked (promote_steering t) _ w (promote_steering-Keeps t) h
        (λ inserted w₁ h₁. ended (had_tools || inserted) w₁ h₁)
    where
      ended :
          (more : Bool) (w₁ : Work)
          → w₁.operations ≡ asked
          → Refuses asked
              ((if more then request_llm config read t else modify (rest config read t)) w₁)
      ended true w₁ h₁ = request_llm-Refuses asked w₁ h₁
      ended false w₁ h₁ = returned-Refuses asked (rest config read t w₁)

  pub finish_turn-Refuses :
      (asked : List PlannedOperation) (had_tools : Bool) (w : Work)
      → w.operations ≡ asked
      → Refuses asked (finish_turn config read t had_tools w)
  unfolding finish_turn
  finish_turn-Refuses asked had_tools w h = ended w.state.cancel_requested
    where
      ended :
          (stopping : Bool)
          → Refuses asked (
              (if stopping
                  then modify (cancel config read t)
                  else finish_steered config read t had_tools)
                (clear_turn config read t w))
      ended true = returned-Refuses asked (cancel config read t (clear_turn config read t w))
      ended false = finish_steered-Refuses asked had_tools (clear_turn config read t w) h

  start_call-Refuses :
      (asked : List PlannedOperation) (call : ToolCall) (request : Result OperationRequest)
      (later : Turn (Unit {0})) (w : Work)
      → w.operations ≡ asked
      → ((w₁ : Work) → w₁.operations ≡ asked → Refuses asked (later w₁))
      → Refuses asked (start_call read call request later w)
  unfolding start_call plan_operation
  start_call-Refuses asked call (ok request) later w h next =
      planned-Refuses asked (read.operation_id _) run_command _ (honest _)
  start_call-Refuses asked call (err (syntax_error text)) later w h next =
      >>=-Refuses asked (refuse_arguments call text) _ w (refuse_arguments-Keeps call text) h
        (λ _ w₁ h₁. next w₁ h₁)
  start_call-Refuses asked call (err (contract c text)) later w h next =
      >>=-Refuses asked (refuse_arguments call text) _ w (refuse_arguments-Keeps call text) h
        (λ _ w₁ h₁. next w₁ h₁)
  start_call-Refuses asked call (err (harness_failure c text)) later w h next =
      kept-Refuses asked (throw _) w (throws_only _ _ (λ w. refl)) h
  start_call-Refuses asked call (err (error text)) later w h next =
      kept-Refuses asked (throw _) w (throws_only _ _ (λ w. refl)) h
  start_call-Refuses asked call (err (gateway_error s c text r u)) later w h next =
      kept-Refuses asked (throw _) w (throws_only _ _ (λ w. refl)) h

  advance_calls-Refuses :
      (asked : List PlannedOperation) (calls : List ToolCall) (w : Work)
      → w.operations ≡ asked
      → Refuses asked (advance_calls parse_json over_limit config read t calls w)
  unfolding advance_calls
  advance_calls-Refuses asked [] w h = finish_turn-Refuses asked true w h
  advance_calls-Refuses asked (call ∷ calls) w h =
      start_call-Refuses asked call _ _ w h (λ w₁ h₁. advance_calls-Refuses asked calls w₁ h₁)

  pub advance_tools-Refuses :
      (asked : List PlannedOperation) (calls : List ToolCall) (w : Work)
      → w.operations ≡ asked
      → Refuses asked (advance_tools parse_json over_limit config read t calls w)
  unfolding advance_tools
  advance_tools-Refuses asked calls w h =
      advance_calls-Refuses asked (skip w.state.next_tool_index calls) w h

  after_bash-Refuses :
      (asked : List PlannedOperation) (calls : List ToolCall) (failure : Option PiError) (w : Work)
      → w.operations ≡ asked
      → Refuses asked (after_bash parse_json over_limit config read t calls failure w)
  unfolding after_bash
  after_bash-Refuses asked calls none w h = advance_tools-Refuses asked calls w h
  after_bash-Refuses asked calls (some e) w h =
      kept-Refuses asked
        (skip_calls (skip w.state.next_tool_index calls)
          >> throw (harness_failure e.code e.message))
        w (>>=-Keeps (skip_calls _) _ (skip_calls-Keeps _) (λ _. throws_only _ _ (λ w. refl))) h

  pub complete_bash-Refuses :
      (asked : List PlannedOperation) (outcome : OperationOutcome) (id : String) (w : Work)
      → w.operations ≡ asked
      → Refuses asked (complete_bash parse_json over_limit config read t outcome id w)
  unfolding complete_bash
  complete_bash-Refuses asked outcome id w h =
      >>=-Refuses asked (lift (current_calls t w.state.active_assistant_sequence)) _ w
        (lift-Keeps _) h
        (λ calls w₁ h₁.
          >>=-Refuses asked (lift (active_call calls w₁.state.next_tool_index)) _ w₁ (lift-Keeps _)
            h₁
            (λ call w₂ h₂.
              >>=-Refuses asked (settle_bash call.call_id id outcome) _ w₂
                (settle_bash-Keeps call.call_id id outcome) h₂
                (λ failure w₃ h₃. after_bash-Refuses asked calls failure (finish_command w₃) h₃)))
