-- ===== src/Examples/Toy.antt =====
-- A small harness that counts: each external input asks for one operation, each result is counted.
use managed_agents.Common.{ℕ, zero, suc, ◌+◌, String, none, some, List, [], ◌∷◌, ok, false}
use managed_agents.Contracts.Json.{Json, null, str, obj, end, field}
use managed_agents.Contracts.Session.{SessionIdentity, SessionInfo}
use managed_agents.Runtime.Event.{Event, external, operation_completed}
use managed_agents.Runtime.Storage.{Store, InboxRow}
use managed_agents.Runtime.Harness.{HarnessDefinition, TransitionPlan}
use managed_agents.Runtime.Core.State.{SessionRuntime}
use managed_agents.Runtime.Calls.History.{Call, initialized, appended, planned, empty_store}

repeat : ℕ → List ℕ
repeat zero = []
repeat (suc n) = 7 ∷ repeat n

-- a digest of 32 bytes
unfoldable pub digest : String → List ℕ
unfolding repeat
digest s = repeat 32

unfoldable pub plan_event : Event → TransitionPlan ℕ
plan_event (external type payload) = record {
  changes = 1;
  operations = record { key = "k"; provider = "p"; type = "t"; version = "1"; input = null } ∷ [];
  status = none;
}
plan_event (operation_completed id provider job_id outcome) = record {
  changes = 10;
  operations = [];
  status = none;
}

abbrev pub toy : HarnessDefinition ℕ ℕ
toy = record {
  identity = record { id = "toy"; version = "1" };
  operations = record { provider = "p"; type = "t"; version = "1" } ∷ [];
  parse_config = λ c. ok c;
  parse_input = λ e. ok e;
  initialize = λ info t. ok t;
  handle = λ input context t. ok (plan_event input.event);
  apply = λ c info t. ok (t + c);
}

abbrev pub session : SessionIdentity
session = record { session_id = "s"; harness = record { id = "toy"; version = "1" } }

abbrev pub info : SessionInfo
info = record { identity = session; config = null; created_at = 5 }

abbrev pub first_row : InboxRow
first_row = record {
  sequence = 1;
  event_id = "e1";
  received_at = 6;
  event_hash = "h1";
  event = some (external "go" null);
  consumed_at = none;
  retry_at = none;
  retry_count = 0;
  last_error = none;
  blocked = false;
}

abbrev pub one_input : Store ℕ
one_input = record { session = some info; inbox = first_row ∷ []; pending = []; tables = 0 }

abbrev pub fresh : SessionRuntime ℕ ℕ
fresh = record {
  store = empty_store 0;
  identity = toy.identity;
  declared = "[\"p\",\"t\",\"1\"]" ∷ [];
  session = none;
  busy = false;
  prepared = none;
  prepared_count = 0;
}

abbrev pub initialize_body : Json
initialize_body = obj (
    field "session"
      (obj (
        field "sessionId" (str "s")
          (field "harness" (obj (field "id" (str "toy") (field "version" (str "1") end))) end)))
      (field "config" null end))

abbrev pub input_body : Json
input_body = obj (
    field "eventId" (str "e1")
      (field "event" (obj (field "type" (str "go") (field "payload" null end))) end))

abbrev pub history : List (Call ℕ)
history = initialized 5 initialize_body ∷ appended 6 input_body ∷ planned ∷ []
