-- ===== src/Orchestrator/Unaffordable.antt =====
-- An execution of packages/orchestrator/src/orchestrator.ts whose estimates all exceed the budget.
use donnav.Common.{
  String, false, List, [], ◌∷◌, ◌≡◌, inl, inr, arith, Option, none, some, Bool-cases, Option-cases,
  ◌==◌,
}
use donnav.Domain.Events.{task_planned}
use donnav.Domain.Tasks.{ExecutionClass, human, is_ai_execution_class, class_eq}
use donnav.Adapter.Contracts.{ErrorClass, CapabilityAdapter, ModelAdapter, ModelRequest}
use donnav.Config.Models.{ModelEntry}
use donnav.Policy.Types.{PolicyEffect, allow, deny, requires_approval, PolicyDecision}
use donnav.Policy.Engine.{evaluate}
use donnav.Routing.Registry.{RegisteredCapability}
use donnav.Routing.Work.{WorkRoutingDecision, route_work}
use donnav.Routing.Models.{ModelRoutingDecision}
use donnav.Orchestrator.Order.{OrderPolicy, OrderBudget, WorkOrder, OrchestratorDeps, Run}
use donnav.Orchestrator.Steps.{Attempt, settled, retry_next, emit}
use donnav.Orchestrator.Execute.{
  order_input, Outcome, routing_input, model_exhausted, model_attempted, ai_routed, ai_requested,
  resolve, capability_attempted, gate_effect, try_models, run_ai, try_capabilities, run_routed,
  route, gate, execute_work_order,
}
use donnav.Orchestrator.Budgets.{
  Unaffordable, Still, Kept, Stopped, emit-Quiet, Kept-after, try_capability-Stopped,
  try_model-Stopped,
}

module _ {W X I O P : Type 0} (deps : OrchestratorDeps W X I O) (order : WorkOrder I)
    (probe : W → P) (b : OrderBudget) (limited : order.budget ≡ some b)
    (still : Still deps order probe)
    (models : (id : String) (a : ModelAdapter W X)
      → deps.resolve_model_adapter id ≡ some a
      → Unaffordable probe b a)
    (capabilities : (id : String) (a : CapabilityAdapter W X (Option I) O)
      → resolve deps order deps.resolve_capability_adapter id ≡ some a
      → Unaffordable probe b a) where
  model_exhausted-Kept :
      (class : ExecutionClass) (last : Option ErrorClass) (s : Run W)
      → Kept deps order probe s (model_exhausted deps order class last s)
  model_exhausted-Kept class none s = (emit-Quiet deps order probe still _ s, λ e. ground arith)
  model_exhausted-Kept class (some k) s = (emit-Quiet deps order probe still _ s, λ e. ground arith)

  model_attempted-Kept :
      (class : ExecutionClass) (next : ErrorClass → Outcome deps order) (s : Run W)
      (attempt : Attempt X O) (t : Run W)
      → Stopped deps order probe s attempt t
      → Kept deps order probe s (model_attempted deps order class next attempt t)
  model_attempted-Kept class next s (settled o) t h = h
  model_attempted-Kept class next s (retry_next k) t h = absurd h

  try_models-Kept :
      (class : ExecutionClass) (request : ModelRequest) (chain : List ModelEntry)
      (last : Option ErrorClass) (s : Run W)
      → Kept deps order probe s (try_models deps order class request chain last s)
  unfolding try_models
  try_models-Kept class request [] last s = model_exhausted-Kept class last s
  try_models-Kept class request (e ∷ chain) last s =
      elim (Option-cases (deps.resolve_model_adapter e.id)) [
        | inl p ↦ rw (p, try_models) (try_models-Kept class request chain last s)
        | inr (a, p) ↦
            rw (p, try_models)
              (model_attempted-Kept class _ s _ _ (
                try_model-Stopped deps order probe b limited still class request e a s
                  (models e.id a p)))
      ]

  ai_routed-Kept :
      (class : ExecutionClass) (request : ModelRequest) (d : Option ModelRoutingDecision)
      (s : Run W)
      → Kept deps order probe s (ai_routed deps order class request d s)
  ai_routed-Kept class request none s = (emit-Quiet deps order probe still _ s, λ e. ground arith)
  ai_routed-Kept class request (some d) s =
      try_models-Kept class request (d.model ∷ d.fallbacks) none s

  ai_requested-Kept :
      (class : ExecutionClass) (request : Option ModelRequest) (s : Run W)
      → Kept deps order probe s (ai_requested deps order class request s)
  ai_requested-Kept class none s = (emit-Quiet deps order probe still _ s, λ e. ground arith)
  ai_requested-Kept class (some request) s = ai_routed-Kept class request _ s

  run_ai-Kept :
      (class : ExecutionClass) (s : Run W) → Kept deps order probe s (run_ai deps order class s)
  unfolding run_ai
  run_ai-Kept class s = ai_requested-Kept class order.model_request s

  capability_attempted-Kept :
      (next : ErrorClass → Outcome deps order) (s : Run W) (attempt : Attempt X O) (t : Run W)
      → Stopped deps order probe s attempt t
      → Kept deps order probe s (capability_attempted deps order next attempt t)
  capability_attempted-Kept next s (settled o) t h = h
  capability_attempted-Kept next s (retry_next k) t h = absurd h

  try_capabilities-Kept :
      (routing : WorkRoutingDecision) (cs : List RegisteredCapability) (s : Run W)
      → Kept deps order probe s (try_capabilities deps order routing cs false s)
  unfolding try_capabilities
  try_capabilities-Kept routing [] s = (emit-Quiet deps order probe still _ s, λ e. ground arith)
  try_capabilities-Kept routing (c ∷ cs) s =
      elim (Option-cases (resolve deps order deps.resolve_capability_adapter c.id)) [
        | inl p ↦ rw (p, try_capabilities) (try_capabilities-Kept routing cs s)
        | inr (a, p) ↦
            rw (p, try_capabilities)
              (capability_attempted-Kept _ s _ _ (
                try_capability-Stopped deps order probe b limited still c a s
                  (capabilities c.id a p)))
      ]

  run_routed-Kept :
      (routing : WorkRoutingDecision) (s : Run W)
      → Kept deps order probe s (run_routed deps order routing s)
  unfolding run_routed
  run_routed-Kept routing s = elim (Bool-cases (routing.execution_class == human)) [
    | inl e ↦ rw e (emit-Quiet deps order probe still _ s, λ k. ground arith)
    | inr e ↦ elim (Bool-cases (is_ai_execution_class routing.execution_class)) [
      | inl ai ↦ rw (e, ai) (run_ai-Kept routing.execution_class s)
      | inr other ↦ rw (e, other) (try_capabilities-Kept routing _ s)
    ]
  ]

  route-Kept : (s : Run W) → Kept deps order probe s (route deps order s)
  unfolding route
  route-Kept s =
      Kept-after deps order probe s (emit deps order task_planned s)
        (run_routed deps order (route_work (routing_input deps order) deps.work_registry)
          (emit deps order task_planned s))
        (emit-Quiet deps order probe still task_planned s)
        (run_routed-Kept (route_work (routing_input deps order) deps.work_registry)
          (emit deps order task_planned s))

  effect-Kept :
      (d : PolicyDecision) (e : PolicyEffect) (s : Run W)
      → Kept deps order probe s (gate_effect deps order d e s)
  effect-Kept d allow s = route-Kept s
  effect-Kept d deny s = (emit-Quiet deps order probe still _ s, λ k. ground arith)
  effect-Kept d requires_approval s = (emit-Quiet deps order probe still _ s, λ k. ground arith)

  gate-Kept : (p : Option OrderPolicy) (s : Run W) → Kept deps order probe s (gate deps order p s)
  gate-Kept none s = route-Kept s
  gate-Kept (some policy) s = let d = evaluate (order_input policy) in effect-Kept d d.effect s

  -- Where an order has a budget and no estimate of a wired adapter fits what is left of it, the
  -- execution changes nothing of the world that neither the making of identifiers nor an estimate
  -- changes, the ledger stays as it is, and the order is not completed.
  pub execute_work_order-Kept :
      (s : Run W) → Kept deps order probe s (execute_work_order deps order s)
  unfolding execute_work_order
  execute_work_order-Kept s = gate-Kept order.policy s
