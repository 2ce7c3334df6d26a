-- ===== src/Pi/Input.antt =====
-- The inputs of packages/harness-pi-no-compaction/src/harness.ts. An event that the session admitted is
-- read back as one of them.
use managed_agents.Common.{String, Option, none, some, if◌then◌else◌, str_eq}
use managed_agents.Contracts.Json.{Json, str, obj, get}
use managed_agents.Contracts.Operation.{OperationOutcome}
use managed_agents.Runtime.Event.{Event, external, operation_completed}

-- `PiNoCompactionInput`, and the completion of an operation
pub data Input : Type 0 where
  message : Json → Input
  cancel : String → Input
  resume : Input
  completed : String → OperationOutcome → Input
  other : Input

abbrev pub payload_field : String → Json → Option Json
payload_field key (obj payload) = get key payload
payload_field key _ = none

abbrev pub message_input : Option Json → Input
message_input (some value) = message value
message_input none = other

abbrev pub cancel_input : Option Json → Input
cancel_input (some (str run_id)) = cancel run_id
cancel_input _ = other

unfoldable pub input_of : Event → Input
input_of (operation_completed id provider job_id outcome) = completed id outcome
input_of (external type payload) =
    if str_eq type "pi_no_compaction.message"
    then message_input (payload_field "message" payload)
    else if str_eq type "pi_no_compaction.cancel"
    then cancel_input (payload_field "runId" payload)
    else if str_eq type "pi_no_compaction.resume"
    then resume
    else other
