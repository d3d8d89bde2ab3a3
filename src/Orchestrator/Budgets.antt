-- ===== src/Orchestrator/Budgets.antt =====
-- The budget gate of packages/orchestrator/src/orchestrator.ts over a whole execution.
use donnav.Common.{
  String, Bool, true, false, ◌≡◌, ◌≢◌, inl, inr, ◌+◌, ◌<◌, refl, sym, subst, ◌∙◌, arith, Option,
  none, some, Result, ok, err, Result-cases, false_iff,
}
use donnav.Domain.Events.{EventType, task_blocked}
use donnav.Domain.Tasks.{ExecutionClass, class_eq}
use donnav.Adapter.Contracts.{
  CostEstimate, ExecutionContext, CapabilityAdapter, ModelAdapter, ModelRequest,
}
use donnav.Config.Models.{ModelEntry}
use donnav.Cost.Budget.{check_budget_iff}
use donnav.Events.Create.{correlation, create_event}
use donnav.Routing.Registry.{RegisteredCapability}
use donnav.Orchestrator.Order.{
  OrderBudget, WorkOrder, completed, WorkOrderResult, OrchestratorDeps, Run,
}
use donnav.Orchestrator.Steps.{
  Attempt, settled, retry_next, emit, budget_gate, capability_context, no_context, capability_gated,
  model_gated, try_capability, try_model,
}
use donnav.Orchestrator.Execute.{Outcome}

-- The adapter's estimates leave what is observed of the world as it is, and are never within what
-- the budget has left.
abbrev pub Unaffordable :
    {W X I O P : Type 0} → (W → P) → OrderBudget → CapabilityAdapter W X I O → Type 0
Unaffordable {W} {X} {I} probe b adapter =
    (i : I) (c : ExecutionContext) (w : W)
    → (probe (adapter.estimate i c w).1 ≡ probe w)
      × ((e : CostEstimate)
          → (adapter.estimate i c w).0 ≡ ok e
          → b.budget.limit_usd < b.spent_usd + e.cost_usd)

abbrev pub NotCompleted : {X O : Type 0} → Result X (WorkOrderResult O) → Type 0
NotCompleted (ok r) = r.status ≢ completed
NotCompleted (err x) = Unit

-- The gate stops the attempt.
abbrev Refused : {X : Type 0} → Result X Bool → Type 0
Refused (ok allowed) = allowed ≡ false
Refused (err x) = Unit

budget_gate-Refused :
    {W X I O P : Type 0} (probe : W → P) (b : OrderBudget) (a : CapabilityAdapter W X I O) (i : I)
    (c : ExecutionContext) (w : W)
    → Unaffordable probe b a
    → (probe (budget_gate (some b) (a.estimate i c) w).1 ≡ probe w)
      × Refused (budget_gate (some b) (a.estimate i c) w).0
budget_gate-Refused probe b a i c w h =
    let (quiet, dear) = h i c w in
    elim (Result-cases (a.estimate i c w).0) [
      | inl (e, p) ↦
          rw (p, budget_gate)
            (
              quiet,
              ground (
                arith,
                false_iff _ (check_budget_iff b.budget b.spent_usd e.cost_usd).0,
                dear e p,
              ),
            )
      | inr (x, p) ↦ rw (p, budget_gate) (quiet, tt)
    ]

module _ {W X I O P : Type 0} (deps : OrchestratorDeps W X I O) (order : WorkOrder I)
    (probe : W → P) where
  -- The run has changed neither the ledger nor what is observed of the world.
  abbrev pub Quiet : Run W → Run W → Type 0
  Quiet s t = (probe t.world ≡ probe s.world) × (t.ledger ≡ s.ledger)

  abbrev pub Kept : Run W → Outcome deps order → Type 0
  Kept s o = Quiet s o.1 × NotCompleted o.0

  abbrev pub Stopped : Run W → Attempt X O → Run W → Type 0
  Stopped s (settled o) t = Quiet s t × NotCompleted o
  Stopped s (retry_next k) t = ⊥

  abbrev pub Still : Type 0
  Still = (w : W) → probe (deps.platform.random_uuid w).1 ≡ probe w

  correlation-still :
      Still → (o : Option String) (w : W) → probe (correlation deps.platform o w).1 ≡ probe w
  correlation-still h none w = h w
  correlation-still h (some c) w = refl

  pub emit-Quiet : Still → (t : EventType) (s : Run W) → Quiet s (emit deps order t s)
  unfolding emit create_event
  emit-Quiet h t s = (correlation-still h order.correlation_id _ ∙ h s.world, refl)

  pub Kept-after : (s t : Run W) (o : Outcome deps order) → Quiet s t → Kept t o → Kept s o
  Kept-after s t o q k = ((k.0.0 ∙ q.0, k.0.1 ∙ q.1), k.1)

  capability_gated-Stopped :
      Still
      → (c : RegisteredCapability) (a : CapabilityAdapter W X (Option I) O) (r : Result X Bool)
        (s : Run W)
      → Refused r
      → let (attempt, t) = capability_gated deps order c a r s in Stopped s attempt t
  capability_gated-Stopped h c a (ok true) s f = absurd (ground arith)
  capability_gated-Stopped h c a (ok false) s f = (emit-Quiet h task_blocked s, λ e. ground arith)
  capability_gated-Stopped h c a (err x) s f = ((refl, refl), tt)

  model_gated-Stopped :
      Still
      → (class : ExecutionClass) (request : ModelRequest) (m : ModelEntry) (a : ModelAdapter W X)
        (r : Result X Bool) (s : Run W)
      → Refused r
      → let (attempt, t) = model_gated deps order class request m a r s in Stopped s attempt t
  model_gated-Stopped h class request m a (ok true) s f = absurd (ground arith)
  model_gated-Stopped h class request m a (ok false) s f =
      (emit-Quiet h task_blocked s, λ e. ground arith)
  model_gated-Stopped h class request m a (err x) s f = ((refl, refl), tt)

  Stopped-after : (s t u : Run W) (a : Attempt X O) → Quiet s t → Stopped t a u → Stopped s a u
  Stopped-after s t u (settled o) q k = ((k.0.0 ∙ q.0, k.0.1 ∙ q.1), k.1)
  Stopped-after s t u (retry_next c) q k = k

  module _ (b : OrderBudget) (limited : order.budget ≡ some b) (still : Still) where
    gate_of :
        {A B : Type 0} (a : CapabilityAdapter W X A B) (i : A) (c : ExecutionContext) (w : W)
        → Unaffordable probe b a
        → (probe (budget_gate order.budget (a.estimate i c) w).1 ≡ probe w)
          × Refused (budget_gate order.budget (a.estimate i c) w).0
    gate_of a i c w u =
        subst
          (λ o.
            (probe (budget_gate o (a.estimate i c) w).1 ≡ probe w)
            × Refused (budget_gate o (a.estimate i c) w).0)
          (sym limited) (budget_gate-Refused probe b a i c w u)

    pub try_capability-Stopped :
        (c : RegisteredCapability) (a : CapabilityAdapter W X (Option I) O) (s : Run W)
        → Unaffordable probe b a
        → let (attempt, t) = try_capability deps order c a s in Stopped s attempt t
    unfolding try_capability
    try_capability-Stopped c a s u =
        let (r, w) =
          budget_gate order.budget
            (a.estimate order.capability_input (capability_context deps order)) s.world in
        let (quiet, refused) =
          gate_of a order.capability_input (capability_context deps order) s.world u in
        Stopped-after s (record s { world = w }) _ _ (quiet, refl)
          (capability_gated-Stopped still c a r (record s { world = w }) refused)

    pub try_model-Stopped :
        (class : ExecutionClass) (request : ModelRequest) (m : ModelEntry) (a : ModelAdapter W X)
        (s : Run W)
        → Unaffordable probe b a
        → let (attempt, t) = try_model deps order class request m a s in Stopped s attempt t
    unfolding try_model
    try_model-Stopped class request m a s u =
        let (r, w) = budget_gate order.budget (a.estimate request no_context) s.world in
        let (quiet, refused) = gate_of a request no_context s.world u in
        Stopped-after s (record s { world = w }) _ _ (quiet, refl)
          (model_gated-Stopped still class request m a r (record s { world = w }) refused)
