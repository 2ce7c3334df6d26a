-- ===== src/Contracts/Api.antt =====
-- packages/contracts/src/api.ts. A command is a JSON value here, and its own `value` is present or not.
use managed_agents.Common.{
  Bool, ℕ, String, ◌&&◌, Option, none, some, is_some, [], ◌∷◌, leb, ltb, if◌then◌else◌, Result, ok,
  err, ◌>>=◌, ◌>>◌, require, refuse, contract, invalid_request,
}
use managed_agents.Contracts.Text.{utf16_length}
use managed_agents.Contracts.Json.{Json, num, obj, Fields, get, whole}
use managed_agents.Contracts.Validation.{
  defined, max_safe_integer, only_keys, record_of, nonempty_string,
}
use managed_agents.Contracts.Session.{HarnessIdentity, SessionInfo}
use managed_agents.Contracts.Operation.{is_text}

pub record CreateSessionRequest : Type 0 where
  pub request_id : String
  pub harness : HarnessIdentity
  pub config : Json
  pub metadata : Fields

unfoldable pub metadata_of : Option Json → Result Fields
metadata_of (some (obj fields)) = ok fields
metadata_of _ = err (contract invalid_request "metadata must be a JSON object.")

unfoldable pub config_of : Option Json → Result Json
config_of none = err (contract invalid_request "config is required.")
config_of (some config) = ok config

unfoldable pub parse_create_session_request : Json → Result CreateSessionRequest
parse_create_session_request value = do
  request ←
      record_of (some value) ("requestId" ∷ "harness" ∷ "config" ∷ "metadata" ∷ []) "request"
        invalid_request
  harness ← record_of (get "harness" request) ("id" ∷ "version" ∷ []) "harness" invalid_request
  request_id ← nonempty_string (get "requestId" request) "requestId" invalid_request
  refuse (ltb 200 (utf16_length request_id))
      (contract invalid_request "requestId must be at most 200 characters.")
  config ← config_of (get "config" request)
  metadata ← metadata_of (get "metadata" request)
  id ← nonempty_string (get "id" harness) "harness.id" invalid_request
  version ← nonempty_string (get "version" harness) "harness.version" invalid_request
  ok (record {
    request_id = request_id;
    harness = record { id = id; version = version };
    config = config;
    metadata = metadata;
  })

pub record MessagePageQuery : Type 0 where
  pub after : ℕ
  pub limit : ℕ

unfoldable pub invalid_page : {A : Type 0} → Result A
invalid_page =
    err (contract invalid_request "after must be a nonnegative integer; limit must be 1–100.")

-- a number of the query, with its default and its bounds
unfoldable pub page_number : Option Json → ℕ → ℕ → ℕ → Result ℕ
page_number none default low high = ok default
page_number (some (num (whole n))) default low high =
    require (leb low n && leb n high)
      (contract invalid_request "after must be a nonnegative integer; limit must be 1–100.")
    >> ok n
page_number (some _) default low high = invalid_page

unfoldable pub parse_message_page_query : Option Json → Result MessagePageQuery
parse_message_page_query value = do
  json ← defined value
  r ← record_of (some json) ("after" ∷ "limit" ∷ []) "message page" invalid_request
  after ← page_number (get "after" r) 0 0 max_safe_integer
  limit ← page_number (get "limit" r) 100 1 100
  ok (record { after = after; limit = limit })

pub data SessionCommand : Type 0 where
  initialize append_input accept_completion accept_tool_completion : Json → SessionCommand
  get_messages get_pending_messages : MessagePageQuery → SessionCommand
  get_session get_progress : SessionCommand

unfoldable pub command_fields : Json → Result Fields
command_fields (obj fields) =
    require (only_keys ("action" ∷ "value" ∷ []) fields)
      (contract invalid_request "command contains unsupported fields.")
    >> ok fields
command_fields _ = err (contract invalid_request "command must be a plain object.")

unfoldable pub paged : (MessagePageQuery → SessionCommand) → Fields → Result SessionCommand
paged make command = parse_message_page_query (get "value" command) >>= λ query. ok (make query)

unfoldable pub plain : SessionCommand → Fields → Result SessionCommand
plain made command =
    refuse (is_some (get "value" command)) (contract invalid_request "Unexpected command value.")
    >> ok made

unfoldable pub with_value : (Json → SessionCommand) → Option Json → Result SessionCommand
with_value make none = err (contract invalid_request "Missing command value.")
with_value make (some value) = ok (make value)

unfoldable pub valued_command : Fields → Result SessionCommand
valued_command command =
    if is_text (get "action" command) "initialize"
    then with_value initialize (get "value" command)
    else if is_text (get "action" command) "appendInput"
    then with_value append_input (get "value" command)
    else if is_text (get "action" command) "acceptCompletion"
    then with_value accept_completion (get "value" command)
    else if is_text (get "action" command) "acceptToolCompletion"
    then with_value accept_tool_completion (get "value" command)
    else err (contract invalid_request "Unknown session command.")

unfoldable pub command_of : Fields → Result SessionCommand
command_of command =
    if is_text (get "action" command) "getMessages"
    then paged get_messages command
    else if is_text (get "action" command) "getPendingMessages"
    then paged get_pending_messages command
    else if is_text (get "action" command) "getSession"
    then plain get_session command
    else if is_text (get "action" command) "getProgress"
    then plain get_progress command
    else valued_command command

unfoldable pub parse_session_command : Json → Result SessionCommand
parse_session_command value = command_fields value >>= command_of

pub record CreateSessionResult : Type 0 where
  pub session : SessionInfo
  pub duplicate : Bool

pub data SessionStatus : Type 0 where
  initializing initialization_failed destroyed : SessionStatus
  idle running failed cancelling cancelled waiting : SessionStatus

pub record SessionRecord : Type 0 where
  pub session_id : String
  pub harness : HarnessIdentity
  pub metadata : Fields
  pub status : SessionStatus
