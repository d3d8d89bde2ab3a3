-- ===== src/Orchestrator/Json.antt =====
-- `JSON.stringify(order)`, as the control plane and the worker put an order into the job queue
-- (apps/control-plane/src/services/task-dispatcher.ts, apps/worker/src/task-state.ts), and the
-- reading of the nested objects, which apps/worker/src/work-order-payload.ts casts as they are.
use donnav.Common.{ℕ, String, List, [], ◌∷◌, ◌≡◌, some}
use mathlib.Core.Option
use donnav.Common.Json.{
  Value, number, finite, boolean, text, array, object, Values, no_items, item, Fields,
}
use donnav.Common.Objects.{Property, object_of}
use donnav.Domain.Events.{Actor}
use donnav.Adapter.Contracts.{ModelRole, system, user, assistant, tool, ModelMessage, ModelRequest}
use donnav.Orchestrator.Order.{OrderPolicy, OrderBudget, WorkOrder}

abbrev pub model_role_name : ModelRole → String
model_role_name system = "system"
model_role_name user = "user"
model_role_name assistant = "assistant"
model_role_name tool = "tool"

-- How the nested objects that are cast stand in JSON: a value of the type as an object, and what
-- a cast makes of any object. A cast of an object that stands for a value gives that value.
pub record Nested (I : Type 0) : Type 0 where
  pub actor_value : Actor → Value
  pub input_value : I → Value
  pub policy_fields : OrderPolicy → Fields
  pub as_policy : Fields → OrderPolicy
  pub as_policy-policy_fields : (p : OrderPolicy) → as_policy (policy_fields p) ≡ p
  pub budget_fields : OrderBudget → Fields
  pub as_budget : Fields → OrderBudget
  pub as_budget-budget_fields : (b : OrderBudget) → as_budget (budget_fields b) ≡ b
  pub as_role : String → ModelRole
  pub as_role-model_role_name : (r : ModelRole) → as_role (model_role_name r) ≡ r

abbrev pub number_value : ℕ → Value
number_value n = number (finite n)

abbrev pub text_items : List String → Values
text_items [] = no_items
text_items (s ∷ ss) = item (text s) (text_items ss)

abbrev pub message_value : ModelMessage → Value
message_value m = object (
    object_of
      (("role", some (text (model_role_name m.role))) ∷ ("content", some (text m.content)) ∷ []))

unfoldable pub message_values : List ModelMessage → Values
message_values [] = no_items
message_values (m ∷ ms) = item (message_value m) (message_values ms)

abbrev pub request_properties : ModelRequest → List Property
request_properties r =
    ("messages", some (array (message_values r.messages)))
    ∷ ("maxOutputTokens", Option.map number_value r.max_output_tokens)
    ∷ ("reasoningTier", Option.map number_value r.reasoning_tier)
    ∷ []

unfoldable pub request_value : ModelRequest → Value
request_value r = object (object_of (request_properties r))

module _ {I : Type 0} (nested : Nested I) where
  abbrev pub order_properties : WorkOrder I → List Property
  order_properties o =
      ("organizationId", some (text o.organization_id))
      ∷ ("taskId", Option.map text o.task_id)
      ∷ ("correlationId", Option.map text o.correlation_id)
      ∷ ("actor", Option.map nested.actor_value o.actor)
      ∷ ("requiredCapabilities", some (array (text_items o.required_capabilities)))
      ∷ ("prefersHuman", Option.map boolean o.prefers_human)
      ∷ ("needsReasoning", Option.map boolean o.needs_reasoning)
      ∷ ("reasoningTier", Option.map number_value o.reasoning_tier)
      ∷ ("needsTools", Option.map boolean o.needs_tools)
      ∷ ("needsVision", Option.map boolean o.needs_vision)
      ∷ ("requireLocal", Option.map boolean o.require_local)
      ∷ ("minContextTokens", Option.map number_value o.min_context_tokens)
      ∷ ("modelRequest", Option.map request_value o.model_request)
      ∷ ("capabilityInput", Option.map nested.input_value o.capability_input)
      ∷ ("policy", Option.map (λ p. object (nested.policy_fields p)) o.policy)
      ∷ ("budget", Option.map (λ b. object (nested.budget_fields b)) o.budget)
      ∷ []

  unfoldable pub order_value : WorkOrder I → Value
  order_value o = object (object_of (order_properties o))
