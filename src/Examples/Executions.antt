-- ===== src/Examples/Executions.antt =====
-- The theorems about the execution runtime of a session at concrete inputs.
use managed_agents.Common.{List, [], ◌∷◌, All, none, some, ◌≡◌, ok}
use managed_agents.Contracts.Json.{Json, str, obj, end, field, null}
use managed_agents.Contracts.Operation.{ProviderSubmission}
use managed_agents.Execution.Pinned.{
  Step, answered, sent, SentTo, take_steps, take_steps-one_runtime,
}
use managed_agents.Execution.{RuntimeBinding, ExecutionConfig, SessionExecution}

abbrev binding : RuntimeBinding
binding = record {
  gateway_url = "https://gateway.example";
  machine_id = "m";
  runtime_generation = "g";
  destination = record { route_key = "r"; session_id = "s" };
}

abbrev config : ExecutionConfig
config = record {
  execution_gateway_url = "https://other.example";
  machine_id = "n";
  execution_token = "t";
}

abbrev asked : ProviderSubmission
asked = record {
  operation_id = "o";
  submission_id = "o";
  request = record { provider = "tool-pi-bash"; type = "bash"; version = "v1"; input = null };
}

abbrev bound : SessionExecution
bound = record { runtime = some binding; preparing = none }

abbrev other_preparing : SessionExecution
other_preparing = record bound {
  preparing = some (record {
    destination = binding.destination;
    gateway_url = "https://other.example";
    machine_id = "n";
  });
}

abbrev steps : List Step
steps =
    answered (
      ok (
        obj (
          field "machine"
            (obj (
              field "machineId" (str "n") (
                field "connectionStatus" (str "ready")
                  (field "runtimeGeneration" (str "00000000-0000-4000-8000-000000000000") end))))
            end)))
    ∷ sent binding.destination "https://gateway.example" "m" config asked
    ∷ []

take_steps-one_runtime_example :
    ((b : RuntimeBinding)
      → other_preparing.runtime ≡ some b
      → (take_steps (λ url. none) steps other_preparing).1.runtime ≡ some b)
    × All
        (SentTo (take_steps (λ url. none) steps other_preparing).1.runtime)
        (take_steps (λ url. none) steps other_preparing).0
take_steps-one_runtime_example = take_steps-one_runtime (λ url. none) steps other_preparing

abbrev finished : Json
finished = obj (field "provider" (str "tool-pi-read") end)

abbrev reported : Json
reported = obj (
    field "execution"
      (obj (
        field "gatewayUrl" (str "https://gateway.example")
          (field "machineId" (str "m") (field "runtimeGeneration" (str "g") end))))
      (field "completion" finished end))
