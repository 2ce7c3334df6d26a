-- ===== src/MinimalBash/Work.antt =====
-- What a transition of packages/harness-minimal-bash/src/harness.ts works on, and the helpers that change
-- it. What was changed before an exception stays changed.
use managed_agents.Common.{
  ◌+◌, String, Bool, true, false, ◌||◌, Option, none, some, if◌then◌else◌, List, [], ◌∷◌, ◌++◌,
  length, select, map, ok,
}
use managed_agents.Common.Exec.{Exec, pure, lift, gets, ◌>>=◌, ◌>>◌}
use managed_agents.Contracts.Json.{Json}
use managed_agents.Contracts.Operation.{OperationRequest}
use managed_agents.Contracts.Llm.{llm_operation}
use managed_agents.Runtime.Harness.{HarnessStatus, PlannedOperation, ReadContext}
use managed_agents.MinimalBash.Config.{BashConfig}
use managed_agents.MinimalBash.Calls.{build_llm_input}
use managed_agents.MinimalBash.State.{idle, llm, cancelled, failed, State, Tables}
use managed_agents.Pi.Tables.{PiError, Reference, proposed, PendingRow}
use managed_agents.Pi.Work.{ProposedMessage, assert_message_size, message_fields, planned}
use managed_agents.Pi.Turn.{input_message}

-- `MinimalBashChanges`
pub record Changes : Type 0 where
  pub state : Option State
  pub messages : List ProposedMessage
  pub pending : Option PendingRow
  pub promote_pending : Bool

-- `Context`, with the state `s` that the transition changes
pub record Work : Type 0 where
  pub changes : Changes
  pub operations : List PlannedOperation
  pub status : Option HarnessStatus
  pub state : State

abbrev pub Turn : Type 0 → Type 0
Turn A = Exec Work A

abbrev pub no_changes : Changes
no_changes = record { state = none; messages = []; pending = none; promote_pending = false }

abbrev pub start : State → Work
start s = record { changes = no_changes; operations = []; status = none; state = s }

abbrev pub modify : (Work → Work) → Turn (Unit {0})
modify f w = (ok tt, f w)

unfoldable pub push_message : ProposedMessage → Work → Work
push_message p w = record w {
  changes = record w.changes { messages = w.changes.messages ++ p ∷ [] };
}

unfoldable pub append : ProposedMessage → Turn Reference
append p = do
  lift (assert_message_size (message_fields p))
  modify (push_message p)
  gets (λ w. proposed (length w.changes.messages))

-- `operation`
unfoldable pub plan_operation : ReadContext → String → OperationRequest → Turn String
plan_operation read key request = do
  modify (λ w. record w { operations = w.operations ++ planned key request ∷ [] })
  lift (read.operation_id key)

unfoldable pub fail : PiError → Work → Work
fail e w = record w {
  status = some HarnessStatus.failed;
  state = record w.state {
    phase = failed;
    active_operation_id = none;
    active_assistant_sequence = none;
    next_tool_index = 0;
    last_error = some e;
    cancel_requested = false;
  };
}

unfoldable pub promote_rows : List PendingRow → Turn (Unit {0})
promote_rows [] = pure tt
promote_rows (row ∷ rows) = do
  run_id ← gets (λ w. w.state.run_id)
  append (input_message row.message run_id row.event_id)
  promote_rows rows

abbrev has_rows : List PendingRow → Bool
has_rows [] = false
has_rows (row ∷ rows) = true

-- `promoteSteering`; whether it promoted any
unfoldable pub promote_steering : Tables → Turn Bool
promote_steering t = do
  promote_rows t.pending
  modify (λ w. record w {
    changes = record w.changes {
      promote_pending = w.changes.promote_pending || has_rows t.pending;
    };
  })
  pure (has_rows t.pending)

-- the proposed messages in context
unfoldable pub in_context : Work → List Json
in_context w = map (λ p. p.message) (select (λ p. p.in_context) w.changes.messages)

abbrev llm_request : Json → OperationRequest
llm_request input = record {
  provider = llm_operation.provider;
  type = llm_operation.type;
  version = llm_operation.version;
  input = input;
}

abbrev pub await_llm : String → Work → Work
await_llm id w = record w {
  state = record w.state {
    active_operation_id = some id;
    phase = llm;
    turn_count = w.state.turn_count + 1;
    active_assistant_sequence = none;
    next_tool_index = 0;
  };
}

unfoldable pub send_llm : ReadContext → Json → Turn (Unit {0})
send_llm read input = plan_operation read "llm" (llm_request input) >>= λ id. modify (await_llm id)

module _ (config : BashConfig) (read : ReadContext) (t : Tables) where
  unfoldable pub request_with : List Json → Turn (Unit {0})
  request_with appended =
      lift (build_llm_input config read.session.identity.session_id t.messages appended)
      >>= send_llm read

  unfoldable pub request_llm : Turn (Unit {0})
  request_llm = gets in_context >>= request_with

  abbrev pub clear_turn : Work → Work
  clear_turn w = record w {
    state = record w.state {
      active_operation_id = none;
      active_assistant_sequence = none;
      next_tool_index = 0;
    };
  }

  abbrev pub rest : Work → Work
  rest w = record w { state = record w.state { phase = idle }; status = some HarnessStatus.idle }

  abbrev pub cancel : Work → Work
  cancel w = record w {
    state = record w.state { phase = cancelled; cancel_requested = false };
    status = some HarnessStatus.cancelled;
  }

  unfoldable pub finish_steered : Bool → Turn (Unit {0})
  finish_steered had_tools = do
    inserted ← promote_steering t
    if had_tools || inserted then request_llm else modify rest

  unfoldable pub finish_turn : Bool → Turn (Unit {0})
  finish_turn had_tools = do
    modify clear_turn
    cancelling ← gets (λ w. w.state.cancel_requested)
    if cancelling then modify cancel else finish_steered had_tools
