-- ===== src/Examples/Commands.antt =====
-- The agent of the bash tool at concrete inputs.
use managed_agents.Pi.Response.{llm_result}
use managed_agents.Pi.Handle.{option_equals}
use mathlib.Core.Option
use managed_agents.Common.{◌≡◌, refl, none, some, ok, err, harness_failure, false, []}
use managed_agents.Contracts.Operation.{cancelled}
use managed_agents.Runtime.Event.{operation_completed}
use managed_agents.Runtime.Storage.{Envelope}
use managed_agents.Runtime.Harness.{HarnessStatus, TransitionPlan}
use managed_agents.Examples.Agents.{context, unread}
use managed_agents.MinimalBash.Config.{BashConfig}
use managed_agents.MinimalBash.State.{Phase, State, initial_state}
use managed_agents.MinimalBash.Work.{Changes, start}
use managed_agents.MinimalBash.Harness.{no_tables}
use managed_agents.MinimalBash.Handle.{
  state_text, complete_llm, complete, react, react_all, input_of,
}
use managed_agents.MinimalBash.Quiet.{Computes}
use managed_agents.MinimalBash.Silent.{react_all-failed}

abbrev config : BashConfig
config = record {
  model_id = "gpt-5.6-sol";
  account_id = "a";
  reasoning = "low";
  machine_id = "m";
  execution_token = "t";
  execution_gateway_url = "https://gateway.example";
  cwd = "/work";
}

abbrev waiting : State
waiting = record initial_state { phase = Phase.llm; active_operation_id = some "o" }

abbrev lost : Envelope
lost = record {
  event_id = "e";
  sequence = 4;
  received_at = 9;
  event = operation_completed "o" "llm" none cancelled;
}

context-Computes : Computes context
context-Computes key c m h = cc

lost-failed :
    (react unread
      (λ text. false)
      config
      context
      no_tables
      waiting
      lost
      (input_of lost.event)
      (start waiting)).0
    ≡ err (harness_failure "LLM_FAILED" "LLM operation was cancelled upstream.")
unfolding react input_of option_equals complete complete_llm llm_result
lost-failed = refl

react_all-failed_example :
    (plan : TransitionPlan Changes) × (after : State) × (react_all unread
        (λ text. false)
        config
        context
        no_tables
        waiting
        lost
      ≡ ok plan)
    × (plan.operations ≡ [])
    × (plan.status ≡ some HarnessStatus.failed)
    × (state_text (Option.get_or plan.changes.state waiting) ≡ state_text after)
    × (after.phase ≡ Phase.failed)
    × (after.last_error
        ≡ some (record { code = "LLM_FAILED"; message = "LLM operation was cancelled upstream." }))
    × (after.active_operation_id ≡ none)
    × (after.active_assistant_sequence ≡ none)
    × (after.next_tool_index ≡ 0)
    × (after.cancel_requested ≡ false)
react_all-failed_example =
    react_all-failed unread (λ text. false) config context no_tables context-Computes waiting lost
      "LLM_FAILED" "LLM operation was cancelled upstream." lost-failed
