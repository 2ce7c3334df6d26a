-- ===== src/Runtime/Harness.antt =====
-- packages/harness-api/src: what a harness gives to the runtime, over its own tables `T` and the
-- changes `C` that a transition proposes. Harness code is synchronous and returns what its types
-- say, so the checks for promises and for malformed plans have no counterpart here.
use managed_agents.Common.{String, Option, List, Result}
use managed_agents.Contracts.Json.{Json}
use managed_agents.Contracts.Session.{HarnessIdentity, SessionInfo, EventBody}
use managed_agents.Contracts.Operation.{OperationDefinition}
use managed_agents.Runtime.Storage.{Envelope}

pub data HarnessStatus : Type 0 where
  idle running failed cancelling cancelled waiting : HarnessStatus

pub record PlannedOperation : Type 0 where
  pub key : String
  pub provider : String
  pub type : String
  pub version : String
  pub input : Json

pub record TransitionPlan (C : Type 0) : Type 0 where
  pub changes : C
  pub operations : List PlannedOperation
  pub status : Option HarnessStatus

-- `operation_id` is the pure identity calculation of the read context.
pub record ReadContext : Type 0 where
  pub session : SessionInfo
  pub operation_id : String → Result String

pub record HarnessDefinition (T C : Type 0) : Type 0 where
  pub identity : HarnessIdentity
  pub operations : List OperationDefinition
  pub parse_config : Json → Result Json
  pub parse_input : EventBody → Result EventBody
  pub initialize : SessionInfo → T → Result T
  pub handle : Envelope → ReadContext → T → Result (TransitionPlan C)
  pub apply : C → SessionInfo → T → Result T
