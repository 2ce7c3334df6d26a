-- ===== src/Execution.antt =====
-- packages/session-execution/src/index.ts: the execution runtime that a session is pinned to. The reply of
-- the discovery request is a value. `submit` and `prepare` are cut at their awaits.
pub mod Pinned
use managed_agents.Common.{
  String, Bool, false, ◌&&◌, Option, none, some, is_some, ◌||◌, if◌then◌else◌, [], ◌∷◌, str_eq,
  Result, ok, err, ◌≡◌, ◌>>=◌, ◌>>◌, require, contract, invalid_request, completion_conflict, error,
}
use managed_agents.Common.Exec.{Exec, continue}
use managed_agents.Contracts.Text.{includes}
use managed_agents.Contracts.Json.{Json, str, obj, Fields, get}
use managed_agents.Contracts.Operation.{is_text, ProviderSubmission, ProviderSubmitResult}
use managed_agents.Contracts.LlmMessage.{SessionDestination}
use managed_agents.Contracts.ToolExecution.{
  Url, ToolExecutionSubmission, parse_execution_gateway_url,
}
use managed_agents.Gateway.Wire.{plain_object, object_with, uuid}

pub record RuntimeBinding : Type 0 where
  pub gateway_url : String
  pub machine_id : String
  pub runtime_generation : String
  pub destination : SessionDestination

pub record ExecutionConfig : Type 0 where
  pub execution_gateway_url : String
  pub machine_id : String
  pub execution_token : String

-- `INSERT … ON CONFLICT DO NOTHING` into the table of one row
unfoldable pub pin : RuntimeBinding → Option RuntimeBinding → Option RuntimeBinding
pin binding none = some binding
pin binding (some old) = some old

unfoldable pub discovered : SessionDestination → String → String → Json → Result RuntimeBinding
discovered destination gateway_url machine_id reply = do
  response ← plain_object (some reply)
  machine ← plain_object (get "machine" response)
  require
      (is_text (get "machineId" machine) machine_id
        && is_text (get "connectionStatus" machine) "ready")
      (error "Execution machine is not ready.")
  generation ← uuid (get "runtimeGeneration" machine)
  ok (record {
    gateway_url = gateway_url;
    machine_id = machine_id;
    runtime_generation = generation;
    destination = destination;
  })

-- What a discovery is asked about.
pub record Preparation : Type 0 where
  pub destination : SessionDestination
  pub gateway_url : String
  pub machine_id : String

-- `preparing` is the one discovery that every submission without a binding waits for.
pub record SessionExecution : Type 0 where
  pub runtime : Option RuntimeBinding
  pub preparing : Option Preparation

-- `prepare` before its request, under `this.preparing ??=`
unfoldable pub begin : Preparation → SessionExecution → SessionExecution
begin p s = if is_some s.runtime || is_some s.preparing then s else record s { preparing = some p }

unfoldable pub keep_pinned : Result RuntimeBinding → Exec SessionExecution (Unit {0})
keep_pinned (err e) s = (err e, s)
keep_pinned (ok binding) s = (ok tt, record s { runtime = pin binding s.runtime })

-- `prepare` from the reply to its request on, with the `finally` of `submit`
unfoldable pub settle_preparing :
    Result Json → Option Preparation → Exec SessionExecution (Unit {0})
settle_preparing reply none s = (ok tt, s)
settle_preparing reply (some p) s =
    keep_pinned (reply >>= discovered p.destination p.gateway_url p.machine_id)
      (record s { preparing = none })

unfoldable pub same_binding : RuntimeBinding → SessionDestination → String → String → Bool
same_binding b destination gateway_url machine_id =
    str_eq b.gateway_url gateway_url
    && str_eq b.machine_id machine_id
    && str_eq b.destination.session_id destination.session_id
    && str_eq b.destination.route_key destination.route_key

-- what is sent to the worker
unfoldable pub dispatched :
    Option RuntimeBinding
    → SessionDestination
    → String
    → String
    → ExecutionConfig
    → ProviderSubmission
    → Result ToolExecutionSubmission
dispatched none destination gateway_url machine_id config submission =
    err (error "Execution runtime identity mismatch.")
dispatched (some b) destination gateway_url machine_id config submission =
    require (same_binding b destination gateway_url machine_id)
      (error "Execution runtime identity mismatch.")
    >> ok (record {
      destination = destination;
      execution = record {
        gateway_url = gateway_url;
        token = config.execution_token;
        runtime_generation = b.runtime_generation;
      };
      submission = submission;
    })

-- the machine and the gateway of a submission
unfoldable pub addressed :
    (String → Option Url) → ProviderSubmission → ExecutionConfig → Result (String × String)
addressed parse_url submission config = do
  input ← plain_object (some submission.request.input)
  machine_id ← uuid (get "machineId" input)
  gateway_url ← parse_execution_gateway_url parse_url (some (str config.execution_gateway_url))
  require (str_eq config.machine_id machine_id)
      (contract invalid_request "Operation machine differs from the immutable configuration.")
  ok (gateway_url, machine_id)

-- `submit` up to the `await` of the preparation
unfoldable pub enter :
    (String → Option Url)
    → SessionDestination
    → ProviderSubmission
    → ExecutionConfig
    → Exec SessionExecution (String × String)
enter parse_url destination submission config =
    continue (addressed parse_url submission config) (λ (gateway_url, machine_id) s. (
      ok (gateway_url, machine_id),
      begin
          (record { destination = destination; gateway_url = gateway_url; machine_id = machine_id })
          s,
    ))

unfoldable pub completion_parts : Json → Result (Fields × Json × Fields)
completion_parts value = do
  raw ← object_with ("execution" ∷ "completion" ∷ []) (some value)
  execution ←
      object_with ("gatewayUrl" ∷ "machineId" ∷ "runtimeGeneration" ∷ []) (get "execution" raw)
  completion ← plain_object (get "completion" raw)
  ok (execution, obj completion, completion)

unfoldable pub owns : RuntimeBinding → Fields → Bool
owns b execution =
    is_text (get "gatewayUrl" execution) b.gateway_url
    && is_text (get "machineId" execution) b.machine_id
    && is_text (get "runtimeGeneration" execution) b.runtime_generation

unfoldable pub is_tool : Option Json → Bool
is_tool (some (str provider)) =
    includes ("tool-pi-bash" ∷ "tool-pi-read" ∷ "tool-pi-edit" ∷ "tool-pi-write" ∷ []) provider
is_tool _ = false

unfoldable pub owned_completion : Option RuntimeBinding → Fields × Json × Fields → Result Json
owned_completion none parts =
    err (contract completion_conflict "Tool completion arrived without an execution runtime.")
owned_completion (some b) (execution, whole, completion) =
    require (owns b execution && is_tool (get "provider" completion)) (
      contract completion_conflict
        "Tool completion execution identity does not belong to this session.")
    >> ok whole

unfoldable pub checked_parts : Result (Fields × Json × Fields) → Option RuntimeBinding → Result Json
checked_parts (err e) state = err (contract completion_conflict "Malformed tool completion.")
checked_parts (ok parts) state = owned_completion state parts

unfoldable pub tool_completion : Json → Option RuntimeBinding → Result Json
tool_completion value state = checked_parts (completion_parts value) state

-- The fields name the gateway, the machine and the generation of a binding.
abbrev pub Names : RuntimeBinding → Fields → Type 0
Names b execution =
    (get "gatewayUrl" execution ≡ some (str b.gateway_url))
    × (get "machineId" execution ≡ some (str b.machine_id))
    × (get "runtimeGeneration" execution ≡ some (str b.runtime_generation))
