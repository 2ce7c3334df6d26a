-- ===== src/Pi/Turn.antt =====
-- The turns of packages/harness-pi-no-compaction/src/harness.ts: a request of the model, and what
-- follows when a turn is over.
use managed_agents.Common.{
  ◌+◌, String, Bool, true, false, ◌||◌, Option, none, some, if◌then◌else◌, List, [], ◌∷◌, select,
  map,
}
use managed_agents.Common.Exec.{pure, lift, gets, ◌>>=◌, ◌>>◌}
use managed_agents.Contracts.Json.{Json}
use managed_agents.Contracts.Operation.{OperationRequest}
use managed_agents.Contracts.Llm.{llm_operation}
use managed_agents.Runtime.Harness.{HarnessStatus, ReadContext}
use managed_agents.Pi.Config.{PiConfig}
use managed_agents.Pi.Tables.{idle, llm, cancelled, PendingRow, Tables}
use managed_agents.Pi.LlmInput.{build_llm_input}
use managed_agents.Pi.Work.{ProposedMessage, Work, Turn, modify, append, plan_operation}

abbrev llm_request : Json → OperationRequest
llm_request input = record {
  provider = llm_operation.provider;
  type = llm_operation.type;
  version = llm_operation.version;
  input = input;
}

-- a message for the model, from an input
abbrev pub input_message : Json → Option String → String → ProposedMessage
input_message message run_id event_id = record {
  message = message;
  run_id = run_id;
  in_context = true;
  event_id = some event_id;
  operation_id = none;
  response_metadata = none;
}

-- the proposed messages in context
unfoldable pub in_context : Work → List Json
in_context w = map (λ p. p.message) (select (λ p. p.in_context) w.changes.messages)

unfoldable pub promote_rows : List PendingRow → Turn (Unit {0})
promote_rows [] = pure tt
promote_rows (row ∷ rows) = do
  run_id ← gets (λ w. w.state.run_id)
  append (input_message row.message run_id row.event_id)
  promote_rows rows

abbrev has_rows : List PendingRow → Bool
has_rows [] = false
has_rows (row ∷ rows) = true

-- `promoteSteering`; whether it promoted any
unfoldable pub promote_steering : Tables → Turn Bool
promote_steering t = do
  promote_rows t.pending
  modify (λ w. record w {
    changes = record w.changes {
      promote_pending = w.changes.promote_pending || has_rows t.pending;
    };
  })
  pure (has_rows t.pending)

module _ (config : PiConfig) (read : ReadContext) (t : Tables) where
  unfoldable pub request_llm : Turn (Unit {0})
  request_llm = do
    appended ← gets in_context
    input ← lift (build_llm_input config read.session.identity.session_id t.messages appended)
    id ← plan_operation read "llm" (llm_request input)
    modify (λ w. record w {
      state = record w.state {
        active_operation_id = some id;
        phase = llm;
        turn_count = w.state.turn_count + 1;
        active_assistant_sequence = none;
        next_tool_index = 0;
      };
    })

  abbrev clear_turn : Work → Work
  clear_turn w = record w {
    state = record w.state {
      active_operation_id = none;
      active_assistant_sequence = none;
      next_tool_index = 0;
    };
  }

  abbrev rest : Work → Work
  rest w = record w { state = record w.state { phase = idle }; status = some HarnessStatus.idle }

  abbrev cancel : Work → Work
  cancel w = record w {
    state = record w.state { phase = cancelled; cancel_requested = false };
    status = some HarnessStatus.cancelled;
  }

  unfoldable pub finish_steered : Bool → Turn (Unit {0})
  finish_steered had_tools = do
    inserted ← promote_steering t
    if had_tools || inserted then request_llm else modify rest

  unfoldable pub finish_turn : Bool → Turn (Unit {0})
  finish_turn had_tools = do
    modify clear_turn
    cancelling ← gets (λ w. w.state.cancel_requested)
    if cancelling then modify cancel else finish_steered had_tools
