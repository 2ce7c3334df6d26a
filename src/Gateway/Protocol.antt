-- ===== src/Gateway/Protocol.antt =====
-- execution/packages/execution-gateway-protocol/src/protocol.ts. `digest` is the validator of crypto.ts.
use managed_agents.Common.{
  ℕ, ◌*◌, String, Bool, true, false, not, ◌&&◌, Option, none, some, List, [], ◌∷◌, leb, ltb, ◌==◌,
  length, if◌then◌else◌, Result, ok, err, ◌>>=◌, ◌>>◌, require, refuse,
}
use managed_agents.Contracts.Text.{utf8_bytes, includes}
use managed_agents.Contracts.Json.{
  Json, null, num, str, arr, obj, Fields, get, count, whole, stringify,
}
use managed_agents.Contracts.Operation.{is_text}
use managed_agents.Contracts.Llm.{map_items}
use managed_agents.Gateway.Wire.{
  invalid_value, plain_object, object_with, text, message_text, identity, uuid, boolean, json_value,
}

abbrev pub max_native_bytes : ℕ
max_native_bytes = 8 * 1024 * 1024

abbrev pub operations : List String
operations =
    "request.cancel" ∷ "runtime.capabilities" ∷ "execution.exec" ∷ "execution.interact"
    ∷ "execution.close" ∷ "filesystem.read" ∷ "filesystem.write" ∷ "filesystem.patch"
    ∷ "repl.execute" ∷ "repl.collect" ∷ "repl.interrupt" ∷ "repl.reset" ∷ "repl.close" ∷ []

unfoldable pub operation_name : Option Json → Result String
operation_name (some (str name)) =
    require (includes operations name) (invalid_value "Unsupported native operation.") >> ok name
operation_name _ = err (invalid_value "Unsupported native operation.")

pub record Callback : Type 0 where
  pub receiver : String
  pub context : Json

unfoldable pub context_of : Option Json → Result Json
context_of none = ok null
context_of (some value) = json_value (some value)

unfoldable pub callback : Option Json → Result Callback
callback value = do
  o ← object_with ("receiver" ∷ "context" ∷ []) value
  context ← context_of (get "context" o)
  refuse (ltb 8192 (utf8_bytes (stringify context)))
      (invalid_value "Callback context exceeds 8 KiB.")
  receiver ← identity (get "receiver" o)
  ok (record { receiver = receiver; context = context })

pub record Submission : Type 0 where
  pub request_id : String
  pub runtime_generation : String
  pub operation : String
  pub params : Json
  pub callback : Callback

unfoldable pub submission : Option Json → Result Submission
submission value = do
  o ← object_with ("requestId" ∷ "runtimeGeneration" ∷ "operation" ∷ "callback" ∷ []) value
  op ← object_with ("operation" ∷ "params" ∷ []) (get "operation" o)
  given ← plain_object (get "params" op)
  params ← json_value (some (obj given))
  refuse (ltb max_native_bytes (utf8_bytes (stringify params)))
      (invalid_value "Native parameters exceed limit.")
  request_id ← identity (get "requestId" o)
  generation ← uuid (get "runtimeGeneration" o)
  operation ← operation_name (get "operation" op)
  target ← callback (get "callback" o)
  ok (record {
    request_id = request_id;
    runtime_generation = generation;
    operation = operation;
    params = params;
    callback = target;
  })

pub record RoutingEnvelope : Type 0 where
  pub machine_id : String
  pub runtime_generation : String
  pub request_id : String
  pub request_hash : String
  pub callback : Callback

unfoldable pub routing_fields : (Option Json → Result String) → Option Json → Result RoutingEnvelope
routing_fields digest value = do
  o ← plain_object value
  machine_id ← uuid (get "machineId" o)
  generation ← uuid (get "runtimeGeneration" o)
  request_id ← identity (get "requestId" o)
  request_hash ← digest (get "requestHash" o)
  target ← callback (get "callback" o)
  ok (record {
    machine_id = machine_id;
    runtime_generation = generation;
    request_id = request_id;
    request_hash = request_hash;
    callback = target;
  })

pub record Hello : Type 0 where
  pub runtime_generation : String
  pub daemon_version : String
  pub os : String
  pub arch : String
  pub operations : List String

unfoldable pub distinct : List String → Bool
distinct [] = true
distinct (x ∷ xs) = not (includes xs x) && distinct xs

abbrev is_version_one : Option Json → Bool
is_version_one (some (num (whole n))) = n == 1
is_version_one _ = false

unfoldable pub hello_operations : Fields → Option Json → Result (List String)
hello_operations o (some (arr items)) =
    require
      (is_text (get "type" o) "hello"
        && is_version_one (get "protocolVersion" o)
        && leb (count items) (length operations))
      (invalid_value "Unsupported daemon hello.")
    >> map_items (λ v. operation_name (some v)) items
hello_operations o _ = err (invalid_value "Unsupported daemon hello.")

unfoldable pub hello : Option Json → Result Hello
hello value = do
  o ←
      object_with
        ("type" ∷ "protocolVersion" ∷ "runtimeGeneration" ∷ "daemonVersion" ∷ "os" ∷ "arch"
          ∷ "operations" ∷ [])
        value
  names ← hello_operations o (get "operations" o)
  require (distinct names) (invalid_value "Duplicate capability.")
  generation ← uuid (get "runtimeGeneration" o)
  daemon_version ← text 128 (get "daemonVersion" o)
  os ← text 64 (get "os" o)
  arch ← text 64 (get "arch" o)
  ok (record {
    runtime_generation = generation;
    daemon_version = daemon_version;
    os = os;
    arch = arch;
    operations = names;
  })

pub data Outcome : Type 0 where
  succeeded : Json → Outcome
  failed : (code message : String) (uncertain : Bool) → Outcome

unfoldable pub ok_outcome : Fields → Result Outcome
ok_outcome o = do
  object_with ("status" ∷ "result" ∷ []) (some (obj o))
  result ← json_value (get "result" o)
  ok (succeeded result)

unfoldable pub error_outcome : Fields → Result Outcome
error_outcome o = do
  object_with ("status" ∷ "error" ∷ []) (some (obj o))
  e ← object_with ("code" ∷ "message" ∷ "uncertain" ∷ []) (get "error" o)
  code ← identity (get "code" e)
  message ← message_text 8192 (get "message" e)
  uncertain ← boolean (get "uncertain" e)
  ok (failed code message uncertain)

unfoldable pub native_outcome : Fields → Result Outcome
native_outcome o =
    if is_text (get "status" o) "ok"
    then ok_outcome o
    else if is_text (get "status" o) "error"
    then error_outcome o
    else err (invalid_value "Invalid native outcome.")

unfoldable pub outcome : Option Json → Result Outcome
outcome value = plain_object value >>= native_outcome

pub data SecretKind : Type 0 where
  daemon execution : SecretKind

unfoldable pub secret_kind : Option Json → Result SecretKind
secret_kind value =
    if is_text value "daemon"
    then ok daemon
    else if is_text value "execution"
    then ok execution
    else err (invalid_value "Expected daemon or execution secret.")

pub record CompletionEvent : Type 0 where
  pub routing : RoutingEnvelope
  pub delivery_id : String
  pub result_hash : String
  pub outcome : Outcome

pub record CompletionReceipt : Type 0 where
  pub delivery_id : String
  pub request_id : String
  pub request_hash : String
  pub result_hash : String

pub data ConnectionStatus : Type 0 where
  offline connecting ready : ConnectionStatus

-- `daemon_view` is what the daemon last told of itself
pub record MachineView : Type 0 where
  pub machine_id : String
  pub name : String
  pub deleted : Bool
  pub daemon_secret_version : ℕ
  pub execution_secret_version : ℕ
  pub connection_epoch : ℕ
  pub created_at : ℕ
  pub last_connected_at : Option ℕ
  pub last_disconnected_at : Option ℕ
  pub connection_status : ConnectionStatus
  pub runtime_generation : Option String
  pub last_seen_at : Option ℕ
  pub daemon_view : Option Hello
