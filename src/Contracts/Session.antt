-- ===== src/Contracts/Session.antt =====
-- packages/contracts/src/session.ts and packages/contracts/src/input.ts
use managed_agents.Common.{
  ℕ, String, Option, none, some, [], ◌∷◌, Result, ok, err, ◌>>=◌, contract, ContractErrorCode,
  invalid_request, invalid_input,
}
use managed_agents.Contracts.Json.{Json, get}
use managed_agents.Contracts.Validation.{record_of, nonempty_string}

pub record HarnessIdentity : Type 0 where
  pub id : String
  pub version : String

pub record SessionIdentity : Type 0 where
  pub session_id : String
  pub harness : HarnessIdentity

pub record SessionInfo : Type 0 where
  pub identity : SessionIdentity
  pub config : Json
  pub created_at : ℕ

pub record InitializeSessionRequest : Type 0 where
  pub session : SessionIdentity
  pub config : Json

-- a property that must be there, whatever its value
abbrev own : Option Json → ContractErrorCode → String → Result Json
own (some v) c message = ok v
own none c message = err (contract c message)

unfoldable pub parse_initialize_session_request : Json → Result InitializeSessionRequest
parse_initialize_session_request value = do
  request ← record_of (some value) ("session" ∷ "config" ∷ []) "request" invalid_request
  session ←
      record_of (get "session" request) ("sessionId" ∷ "harness" ∷ []) "session" invalid_request
  harness ←
      record_of (get "harness" session) ("id" ∷ "version" ∷ []) "session.harness" invalid_request
  config ← own (get "config" request) invalid_request "config is required."
  session_id ← nonempty_string (get "sessionId" session) "session.sessionId" invalid_request
  id ← nonempty_string (get "id" harness) "session.harness.id" invalid_request
  version ← nonempty_string (get "version" harness) "session.harness.version" invalid_request
  ok (record {
    session = record { session_id = session_id; harness = record { id = id; version = version } };
    config = config;
  })

pub record EventBody : Type 0 where
  pub type : String
  pub payload : Json

pub record SubmitInputRequest : Type 0 where
  pub event_id : String
  pub event : EventBody

-- the internal shape check
unfoldable pub event_body : Option Json → Result EventBody
event_body value = do
  event ← record_of value ("type" ∷ "payload" ∷ []) "event" invalid_input
  payload ← own (get "payload" event) invalid_input "event.payload is required."
  type ← nonempty_string (get "type" event) "event.type" invalid_input
  ok (record { type = type; payload = payload })

unfoldable pub parse_event_body : Json → Result EventBody
parse_event_body value = event_body (some value)

unfoldable pub parse_submit_input_request : Json → Result SubmitInputRequest
parse_submit_input_request value = do
  request ← record_of (some value) ("eventId" ∷ "event" ∷ []) "request" invalid_request
  event_id ← nonempty_string (get "eventId" request) "eventId" invalid_request
  event ← event_body (get "event" request)
  ok (record { event_id = event_id; event = event })
