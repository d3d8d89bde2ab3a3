-- ===== src/Orchestrator/Order.antt =====
-- packages/orchestrator/src/work-order.ts: work orders, their results and what the orchestrator
-- is given. `W` is the world outside, `X` what adapters may throw, `I` and `O` the inputs and
-- outputs of capability adapters.
use donnav.Common.{ℕ, String, Bool, List, Option}
use donnav.Domain.Events.{Actor, EventEnvelope}
use donnav.Domain.Tasks.{ExecutionClass}
use donnav.Policy.Types.{PrincipalContext, ActionDescriptor, ResourceDescriptor}
use donnav.Adapter.Contracts.{ModelRequest, CapabilityAdapter, ModelAdapter}
use donnav.Config.Models.{ModelEntry}
use donnav.Cost.Budget.{Budget}
use donnav.Cost.Ledger.{UsageLedger}
use donnav.Events.Create.{Platform}
use donnav.Routing.Registry.{CapabilityRegistry}

pub record OrderPolicy : Type 0 where
  pub principal : PrincipalContext
  pub action : ActionDescriptor
  pub resource : ResourceDescriptor

pub record OrderBudget : Type 0 where
  pub budget : Budget
  pub spent_usd : ℕ

pub record WorkOrder (I : Type 0) : Type 0 where
  pub organization_id : String
  pub task_id : Option String
  pub correlation_id : Option String
  pub actor : Option Actor
  pub required_capabilities : List String
  pub prefers_human : Option Bool
  pub needs_reasoning : Option Bool
  pub reasoning_tier : Option ℕ
  pub needs_tools : Option Bool
  pub needs_vision : Option Bool
  pub require_local : Option Bool
  pub min_context_tokens : Option ℕ
  pub model_request : Option ModelRequest
  pub capability_input : Option I
  pub policy : Option OrderPolicy
  pub budget : Option OrderBudget

pub data WorkOrderStatus : Type 0 where
  completed awaiting_human approval_required denied blocked budget_exceeded failed : WorkOrderStatus

pub record WorkOrderResult (O : Type 0) : Type 0 where
  pub status : WorkOrderStatus
  pub execution_class : Option ExecutionClass
  pub model_id : Option String
  pub capability_id : Option String
  pub text : Option String
  pub output : Option O
  pub reason : Option String

-- The bus and the ledger of the source's `OrchestratorDeps` are the state below.
pub record OrchestratorDeps (W X I O : Type 0) : Type 0 where
  pub platform : Platform W
  pub work_registry : CapabilityRegistry
  pub model_registry : List ModelEntry
  pub resolve_model_adapter : String → Option (ModelAdapter W X)
  pub resolve_capability_adapter : Option (String → Option (CapabilityAdapter W X (Option I) O))

-- What an execution changes: the world, the events that the buffering bus of the worker holds, and
-- the ledger.
pub record Run (W : Type 0) : Type 0 where
  pub world : W
  pub events : List EventEnvelope
  pub ledger : UsageLedger
