-- ===== src/Orchestrator/Told.antt =====
-- The events of each part of an execution (packages/orchestrator/src/orchestrator.ts).
use donnav.Common.{
  String, ◌≡◌, Bool, true, false, List, [], ◌∷◌, inl, inr, refl, Option, none, some, is_true,
  Bool-cases, Option-cases, ◌==◌,
}
use donnav.Domain.Tasks.{ExecutionClass, human, cloud_ai, is_ai_execution_class, class_eq}
use donnav.Adapter.Contracts.{CapabilityAdapter, ModelAdapter, ErrorClass, ModelRequest}
use donnav.Adapter.Health.{is_retryable}
use donnav.Config.Models.{ModelEntry}
use donnav.Routing.Registry.{RegisteredCapability}
use donnav.Routing.Work.{WorkRoutingDecision}
use donnav.Routing.Models.{ModelRoutingDecision}
use donnav.Orchestrator.Order.{WorkOrder, OrchestratorDeps, Run}
use donnav.Orchestrator.Steps.{Attempt, settled, retry_next, try_capability, try_model}
use donnav.Orchestrator.Execute.{
  Outcome, model_exhausted, model_attempted, ai_routed, ai_requested, resolve,
  capabilities_exhausted, capability_attempted, try_models, run_ai, try_capabilities, run_routed,
}
use donnav.Orchestrator.Budgets.{Still}
use donnav.Orchestrator.Traces.{Meter, Ticks, Breaks, Ends, Ends-after, close, Tried}
use donnav.Orchestrator.Attempts.{try_capability-Tried, try_model-Tried}

module _ {W X I O : Type 0} ⦃meter : Meter W⦄ (deps : OrchestratorDeps W X I O)
    (order : WorkOrder I) (still : Still deps order meter.read)
    (models : (id : String) (a : ModelAdapter W X)
      → deps.resolve_model_adapter id ≡ some a
      → Ticks meter a)
    (capabilities : (id : String) (a : CapabilityAdapter W X (Option I) O)
      → resolve deps order deps.resolve_capability_adapter id ≡ some a
      → Ticks meter a) where
  abbrev Told : Run W → Outcome deps order → Type 0
  Told s o = Ends s o.0 o.1

  Told-after : (s t : Run W) (o : Outcome deps order) → Breaks s t → Told t o → Told s o
  Told-after s t o b c = Ends-after s t o.0 o.1 b c

  model_exhausted-Told :
      (class : ExecutionClass) (last : Option ErrorClass) (s : Run W)
      → Told s (model_exhausted deps order class last s)
  model_exhausted-Told class none s = close deps order still s _ refl refl
  model_exhausted-Told class (some c) s = close deps order still s _ refl refl

  model_attempted-Told :
      (class : ExecutionClass) (next : ErrorClass → Outcome deps order) (s : Run W)
      (attempt : Attempt X O) (t : Run W)
      → Tried deps order still s attempt t
      → ((k : ErrorClass) → Told t (next k))
      → Told s (model_attempted deps order class next attempt t)
  model_attempted-Told class next s (settled r) t h ih = h
  model_attempted-Told class next s (retry_next k) t h ih = elim (Bool-cases (is_retryable k)) [
    | inl e ↦ rw e (Told-after s t (next k) h (ih k))
    | inr e ↦ rw e (
        Told-after s t (model_exhausted deps order class (some k) t) h
          (model_exhausted-Told class (some k) t))
  ]

  try_models-Told :
      (class : ExecutionClass) (request : ModelRequest) (chain : List ModelEntry)
      (last : Option ErrorClass) (s : Run W)
      → Told s (try_models deps order class request chain last s)
  unfolding try_models
  try_models-Told class request [] last s = model_exhausted-Told class last s
  try_models-Told class request (e ∷ chain) last s =
      elim (Option-cases (deps.resolve_model_adapter e.id)) [
        | inl p ↦ rw (p, try_models) (try_models-Told class request chain last s)
        | inr (a, p) ↦
            let round = try_model deps order class request e a s in
            rw (p, try_models)
              (model_attempted-Told class
                (λ k. try_models deps order class request chain (some k) round.1) s round.0 round.1
                (try_model-Tried deps order still class request e a (models e.id a p) s)
                (λ k. try_models-Told class request chain (some k) round.1))
      ]

  ai_routed-Told :
      (class : ExecutionClass) (request : ModelRequest) (d : Option ModelRoutingDecision)
      (s : Run W)
      → Told s (ai_routed deps order class request d s)
  ai_routed-Told class request none s = close deps order still s _ refl refl
  ai_routed-Told class request (some d) s =
      try_models-Told class request (d.model ∷ d.fallbacks) none s

  ai_requested-Told :
      (class : ExecutionClass) (request : Option ModelRequest) (s : Run W)
      → Told s (ai_requested deps order class request s)
  ai_requested-Told class none s = close deps order still s _ refl refl
  ai_requested-Told class (some request) s = ai_routed-Told class request _ s

  run_ai-Told : (class : ExecutionClass) (s : Run W) → Told s (run_ai deps order class s)
  unfolding run_ai
  run_ai-Told class s = ai_requested-Told class order.model_request s

  capabilities_exhausted-Told :
      (routing : WorkRoutingDecision) (attempted : Bool) (s : Run W)
      → Told s (capabilities_exhausted deps order routing attempted s)
  capabilities_exhausted-Told routing false s = close deps order still s _ refl refl
  capabilities_exhausted-Told routing true s = elim (Bool-cases (is_true order.needs_reasoning)) [
    | inl e ↦ rw e (run_ai-Told cloud_ai s)
    | inr e ↦ rw e (close deps order still s _ refl refl)
  ]

  capability_attempted-Told :
      (next : ErrorClass → Outcome deps order) (s : Run W) (attempt : Attempt X O) (t : Run W)
      → Tried deps order still s attempt t
      → ((k : ErrorClass) → Told t (next k))
      → Told s (capability_attempted deps order next attempt t)
  capability_attempted-Told next s (settled r) t h ih = h
  capability_attempted-Told next s (retry_next k) t h ih = Told-after s t (next k) h (ih k)

  try_capabilities-Told :
      (routing : WorkRoutingDecision) (cs : List RegisteredCapability) (attempted : Bool)
      (s : Run W)
      → Told s (try_capabilities deps order routing cs attempted s)
  unfolding try_capabilities
  try_capabilities-Told routing [] attempted s = capabilities_exhausted-Told routing attempted s
  try_capabilities-Told routing (c ∷ cs) attempted s =
      elim (Option-cases (resolve deps order deps.resolve_capability_adapter c.id)) [
        | inl p ↦ rw (p, try_capabilities) (try_capabilities-Told routing cs attempted s)
        | inr (a, p) ↦
            let round = try_capability deps order c a s in
            rw (p, try_capabilities)
              (capability_attempted-Told (λ _. try_capabilities deps order routing cs true round.1)
                s round.0 round.1
                (try_capability-Tried deps order still c a (capabilities c.id a p) s)
                (λ k. try_capabilities-Told routing cs true round.1))
      ]

  pub run_routed-Told :
      (routing : WorkRoutingDecision) (s : Run W) → Told s (run_routed deps order routing s)
  unfolding run_routed
  run_routed-Told routing s = elim (Bool-cases (routing.execution_class == human)) [
    | inl e ↦ rw e (close deps order still s _ refl refl)
    | inr e ↦ elim (Bool-cases (is_ai_execution_class routing.execution_class)) [
      | inl ai ↦ rw (e, ai) (run_ai-Told routing.execution_class s)
      | inr other ↦ rw (e, other) (try_capabilities-Told routing _ false s)
    ]
  ]
