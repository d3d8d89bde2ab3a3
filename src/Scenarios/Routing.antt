-- ===== src/Scenarios/Routing.antt =====
-- Routing of work and of models at concrete inputs (packages/work-router, packages/model-router).
use donnav.Common.{String, true, false, [], ◌∷◌, ◌≡◌, ◌↔◌, ◌⊎◌, refl, ◌≤◌, none, some, is_true, In}
use donnav.Common.Sort.{IsSorted, sort_by}
use donnav.Common.Text.{decimal}
use donnav.Domain.Tasks.{ExecutionClass, human, browser, local_ai, cloud_ai, class_index}
use donnav.Adapter.Contracts.{healthy, degraded}
use donnav.Config.Models.{ModelEntry, model_registry, opus, fable}
use donnav.Routing.Registry.{RegisteredCapability, CapabilityRegistry, healthy_providing}
use donnav.Routing.Work.{
  WorkRoutingInput, by_preference, route_work, candidate_capabilities, candidate_classes,
}
use donnav.Routing.WorkLaws.{Fits, candidate_capabilities_complete, route_work-least}
use donnav.Routing.ClassLaws.{Distinct, candidate_classes_complete}
use donnav.Routing.Models.{
  ModelRoutingInput, ModelRoutingDecision, by_cost, is_eligible, route_model,
}
use donnav.Routing.ModelLaws.{Able, Covering, route_model-chain}

abbrev capability : String → ExecutionClass → RegisteredCapability
capability id class = record {
  id = id;
  execution_class = class;
  provides = "send_mail" ∷ [];
  health = healthy;
}

abbrev mail_model : RegisteredCapability
mail_model = capability "mail-model" local_ai

abbrev mail_browser : RegisteredCapability
mail_browser = capability "mail-browser" browser

abbrev registry : CapabilityRegistry
registry = mail_model ∷ mail_browser ∷ record mail_browser { health = degraded } ∷ []

abbrev models_only : CapabilityRegistry
models_only = mail_model ∷ []

abbrev work : WorkRoutingInput
work = record {
  required_capabilities = "send_mail" ∷ [];
  prefers_human = none;
  needs_reasoning = some true;
}

candidate_capabilities_complete_example :
    IsSorted by_preference (candidate_capabilities work registry)
    × ((c : RegisteredCapability)
        → In c (candidate_capabilities work registry)
          ↔ ((is_true work.prefers_human ≡ false) × Fits work registry c))
candidate_capabilities_complete_example = candidate_capabilities_complete work registry

route_work-least_example :
    (c : RegisteredCapability) × Fits work registry c
    × ((route_work work registry).execution_class ≡ c.execution_class)
    × ((route_work work registry).capability_id ≡ some c.id)
    × ((d : RegisteredCapability)
        → Fits work registry d
        → class_index c.execution_class ≤ class_index d.execution_class)
unfolding route_work sort_by healthy_providing by_preference
route_work-least_example = route_work-least work registry refl

candidate_classes_complete_example :
    Distinct (candidate_classes work registry)
    × ((a : ExecutionClass)
        → In a (candidate_classes work registry) ↔ (
            (a ≡ human)
            ⊎ ((is_true work.needs_reasoning ≡ true) × (a ≡ cloud_ai))
            ⊎ ((d : RegisteredCapability) × Fits work registry d × (a ≡ d.execution_class))))
candidate_classes_complete_example = candidate_classes_complete work registry

abbrev request : ModelRoutingInput
request = record {
  reasoning_tier = 8;
  needs_tools = some true;
  needs_vision = none;
  require_local = none;
  min_context_tokens = some 500_000;
  exclude_providers = none;
}

abbrev decision : ModelRoutingDecision
decision = record {
  model = opus;
  fallbacks = fable ∷ [];
  reason = "Cheapest model covering tier 8: claude-opus-5.";
}

route_model-chain_example :
    IsSorted by_cost (decision.model ∷ decision.fallbacks)
    × ((m : ModelEntry)
        → In m (decision.model ∷ decision.fallbacks) ↔ (
            Covering request model_registry m
            ⊎ (((k : ModelEntry) → ¬ Covering request model_registry k)
                × Able request model_registry m)))
unfolding route_model model_registry is_eligible sort_by by_cost decimal
route_model-chain_example = route_model-chain request model_registry decision refl
