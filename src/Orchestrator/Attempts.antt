-- ===== src/Orchestrator/Attempts.antt =====
-- What one attempt with an adapter shows (packages/orchestrator/src/orchestrator.ts).
use donnav.Common.{
  Bool, true, false, inl, inr, refl, ◌≡◌, Option, none, some, Result, ok, err, Bool-cases,
  Result-cases,
}
use donnav.Domain.Tasks.{ExecutionClass, class_eq}
use donnav.Adapter.Contracts.{
  ExecutionContext, CapabilityAdapter, ModelAdapter, ModelRequest, ModelResult,
}
use donnav.Adapter.Health.{is_retryable}
use donnav.Config.Models.{ModelEntry}
use donnav.Routing.Registry.{RegisteredCapability}
use donnav.Orchestrator.Order.{OrderBudget, WorkOrder, OrchestratorDeps, Run}
use donnav.Orchestrator.Steps.{
  budget_gate, start, capability_context, capability_outcome, capability_gated, model_outcome,
  model_gated, no_context, try_capability, try_model,
}
use donnav.Orchestrator.Budgets.{Still}
use donnav.Orchestrator.Traces.{
  Meter, Ticks, Ends-after, close, finish, started, moved, Tried, Tried-after,
}

module _ {W X I O : Type 0} ⦃meter : Meter W⦄ (deps : OrchestratorDeps W X I O)
    (order : WorkOrder I) (still : Still deps order meter.read) where
  -- The gate of an adapter that ticks leaves the reading as it is.
  gate-read :
      {A B : Type 0} (a : CapabilityAdapter W X A B) (b : Option OrderBudget) (i : A)
      (c : ExecutionContext) (w : W)
      → Ticks meter a
      → meter.read (budget_gate b (a.estimate i c) w).1 ≡ meter.read w
  gate-read a none i c w h = refl
  gate-read a (some b) i c w h = elim (Result-cases (a.estimate i c w).0) [
    | inl (e, p) ↦ rw (p, budget_gate) (h i c w).0
    | inr (x, p) ↦ rw (p, budget_gate) (h i c w).0
  ]

  module _ (c : RegisteredCapability) (a : CapabilityAdapter W X (Option I) O)
      (ticks : Ticks meter a) where
    outcome-Tried :
        (r : Result X O) (s : Run W) (w : W)
        → meter.read w ≡ meter.tick (meter.read (start deps order s).world)
        → let t = record (start deps order s) { world = w } in
          Tried deps order still s
            (capability_outcome deps order c a r t).0
            (capability_outcome deps order c a r t).1
    outcome-Tried (ok output) s w called = finish deps order still s w _ _ refl called
    outcome-Tried (err error) s w called =
        elim (Bool-cases (is_retryable (a.classify_error error))) [
          | inl e ↦ rw e (started deps order still s w called)
          | inr e ↦ rw e (
              Ends-after {X = X} s _ (ok _) _ (started deps order still s w called)
                (close deps order still _ _ refl refl))
        ]

    gated-Tried :
        (g : Result X Bool) (s : Run W)
        → Tried deps order still s
            (capability_gated deps order c a g s).0
            (capability_gated deps order c a g s).1
    gated-Tried (ok true) s =
        let t = start deps order s in
        let call = a.execute order.capability_input (capability_context deps order) t.world in
        outcome-Tried call.0 s call.1
          (ticks order.capability_input (capability_context deps order) t.world).1
    gated-Tried (ok false) s = close deps order still s _ refl refl
    gated-Tried (err x) s = moved deps order still s s.world refl

    pub try_capability-Tried :
        (s : Run W)
        → Tried deps order still s
            (try_capability deps order c a s).0
            (try_capability deps order c a s).1
    unfolding try_capability
    try_capability-Tried s =
        let gate_call =
          budget_gate order.budget
            (a.estimate order.capability_input (capability_context deps order)) s.world in
        Tried-after deps order still s _ _ _
          (moved deps order still s gate_call.1 (
            gate-read a order.budget order.capability_input (capability_context deps order) s.world
              ticks))
          (gated-Tried gate_call.0 _)

  module _ (class : ExecutionClass) (request : ModelRequest) (e : ModelEntry) (a : ModelAdapter W X)
      (ticks : Ticks meter a) where
    model_outcome-Tried :
        (r : Result X ModelResult) (s : Run W) (w : W)
        → meter.read w ≡ meter.tick (meter.read (start deps order s).world)
        → let t = record (start deps order s) { world = w } in
          Tried deps order still s
            (model_outcome deps order class e a r t).0
            (model_outcome deps order class e a r t).1
    model_outcome-Tried (ok answer) s w called = finish deps order still s w _ _ refl called
    model_outcome-Tried (err error) s w called = started deps order still s w called

    model_gated-Tried :
        (g : Result X Bool) (s : Run W)
        → Tried deps order still s
            (model_gated deps order class request e a g s).0
            (model_gated deps order class request e a g s).1
    model_gated-Tried (ok true) s =
        let t = start deps order s in
        let call = a.execute request no_context t.world in
        model_outcome-Tried call.0 s call.1 (ticks request no_context t.world).1
    model_gated-Tried (ok false) s = close deps order still s _ refl refl
    model_gated-Tried (err x) s = moved deps order still s s.world refl

    pub try_model-Tried :
        (s : Run W)
        → Tried deps order still s
            (try_model deps order class request e a s).0
            (try_model deps order class request e a s).1
    unfolding try_model
    try_model-Tried s =
        let gate_call = budget_gate order.budget (a.estimate request no_context) s.world in
        Tried-after deps order still s _ _ _
          (moved deps order still s gate_call.1
            (gate-read a order.budget request no_context s.world ticks))
          (model_gated-Tried gate_call.0 _)
