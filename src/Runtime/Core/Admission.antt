-- ===== src/Runtime/Core/Admission.antt =====
-- `prepareInput` and `appendInput`: external inputs, admitted once per event ID.
use managed_agents.Common.{
  ℕ, String, Bool, true, false, ◌&&◌, ◌||◌, Option, none, some, List, if◌then◌else◌, str_eq,
  starts_with, Result, ok, err, ◌>>=◌, ◌>>◌, require, contract, invalid_input, input_conflict,
}
use managed_agents.Common.Exec.{Exec, continue}
use managed_agents.Contracts.Json.{Json, json_equals}
use managed_agents.Contracts.Session.{
  SessionInfo, EventBody, SubmitInputRequest, parse_submit_input_request,
}
use managed_agents.Runtime.Event.{Event, external, input_hash}
use managed_agents.Runtime.Storage.{Store, InboxRow, find_input}
use managed_agents.Runtime.Harness.{HarnessDefinition}
use managed_agents.Runtime.Core.State.{SessionRuntime, require_session, exclusive}
use managed_agents.Runtime.Core.Insert.{insert_next}

pub record InputReceipt : Type 0 where
  pub session_id : String
  pub event_id : String
  pub sequence : ℕ
  pub received_at : ℕ
  pub duplicate : Bool

abbrev pub runtime_event_prefix : String
runtime_event_prefix = "runtime."

abbrev pub runtime_event_id_prefix : String
runtime_event_id_prefix = "runtime:"

unfoldable pub is_reserved : SubmitInputRequest → Bool
is_reserved request =
    starts_with request.event.type runtime_event_prefix
    || starts_with request.event_id runtime_event_id_prefix

unfoldable pub event_of : EventBody → Event
event_of body = external body.type body.payload

module _ {T C : Type 0} (sha256 : String → List ℕ) (h : HarnessDefinition T C) (now : ℕ) where
  -- an event ID that is known already
  unfoldable pub repeated_input : SessionInfo → SubmitInputRequest → InboxRow → Result InputReceipt
  repeated_input info request row =
      require (str_eq row.event_hash (input_hash sha256 (event_of request.event)))
        (contract input_conflict "Event ID was already used for different content.")
      >> ok (record {
        session_id = info.identity.session_id;
        event_id = row.event_id;
        sequence = row.sequence;
        received_at = row.received_at;
        duplicate = true;
      })

  -- `parseInput` must return what it was given
  unfoldable pub validated_input : EventBody → Result (Unit {0})
  validated_input event = do
    validated ← h.parse_input event
    require (str_eq validated.type event.type && json_equals validated.payload event.payload)
        (contract invalid_input "parseInput must preserve event content.")

  unfoldable pub fresh_input :
      SessionInfo → SubmitInputRequest → Store T → Result (InputReceipt × Store T)
  fresh_input info request store = do
    validated_input request.event
    inserted ←
        insert_next now request.event_id (event_of request.event)
          (input_hash sha256 (event_of request.event)) store.inbox
    ok (
      record {
        session_id = info.identity.session_id;
        event_id = inserted.0.event_id;
        sequence = inserted.0.sequence;
        received_at = inserted.0.received_at;
        duplicate = false;
      },
      record store { inbox = inserted.1 },
    )

  unfoldable pub admit_known :
      Option InboxRow → SessionInfo → SubmitInputRequest → Store T → Result (InputReceipt × Store T)
  admit_known (some row) info request store =
      repeated_input info request row >>= λ receipt. ok (receipt, store)
  admit_known none info request store = fresh_input info request store

  -- the transaction behind an admission
  unfoldable pub admit_store :
      SessionInfo → SubmitInputRequest → Store T → Result (InputReceipt × Store T)
  admit_store info request store =
      admit_known (find_input request.event_id store.inbox) info request store

  unfoldable pub keep_admitted :
      Result (InputReceipt × Store T) → Exec (SessionRuntime T C) InputReceipt
  keep_admitted (err e) r = (err e, r)
  keep_admitted (ok (receipt, store)) r = (ok receipt, record r { store = store })

  unfoldable pub admit_session : SubmitInputRequest → Exec (SessionRuntime T C) InputReceipt
  admit_session request r =
      let (found, r') = require_session r in
      continue found (λ info s. keep_admitted (admit_store info request s.store) s) r'

  -- the closure that `prepareInput` returns
  unfoldable pub admit_input : SubmitInputRequest → Exec (SessionRuntime T C) InputReceipt
  admit_input request = exclusive λ r.
      if is_reserved request
      then (err (contract invalid_input "Runtime event types and event IDs are reserved."), r)
      else admit_session request r

  unfoldable pub append_input : Json → Exec (SessionRuntime T C) InputReceipt
  append_input value r = continue (parse_submit_input_request value) admit_input r
