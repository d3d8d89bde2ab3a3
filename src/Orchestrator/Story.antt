-- ===== src/Orchestrator/Story.antt =====
-- The events and the ledger of a whole execution (packages/orchestrator/src/orchestrator.ts).
use donnav.Common.{
  ℕ, String, List, [], ◌∷◌, ◌++◌, ◌≡◌, ◌⊎◌, inl, inr, ◌≤◌, refl, sym, ap, ◌∙◌, arith, Option, none,
  some, Result, ok, err, length, append_assoc_lem, append-nil_lem,
}
use donnav.Domain.Events.{task_planned}
use donnav.Domain.Tasks.{class_eq}
use donnav.Policy.Types.{PolicyEffect, allow, deny, requires_approval, PolicyDecision}
use donnav.Policy.Engine.{evaluate}
use donnav.Adapter.Contracts.{CapabilityAdapter, ModelAdapter}
use donnav.Cost.Ledger.{UsageRecord}
use donnav.Routing.Work.{route_work}
use donnav.Orchestrator.Order.{
  OrderPolicy, WorkOrder, approval_required, denied, WorkOrderResult, OrchestratorDeps, Run,
}
use donnav.Orchestrator.Steps.{result, emit}
use donnav.Orchestrator.Execute.{
  policy_reason_name, order_input, resolve, routing_input, gate_effect, route, gate,
  execute_work_order,
}
use donnav.Orchestrator.Traces.{
  Ends, types_of, rounds, closing, opening, charged, Meter, Ticks, times, emit-types, emit-read,
  emit-ledger,
}
use donnav.Orchestrator.Budgets.{Still}
use donnav.Orchestrator.Told.{run_routed-Told}

-- What an execution adds to a run. The reading of the world ticks `n` times, and there are `n` pairs
-- of events. With a result: the opening of its status, the pairs, and the closing event of its
-- status, with as many usage records as the status is charged. With an error that an adapter's
-- estimate has thrown: the planning event and the pairs so far.
abbrev pub Story :
    {W X O : Type 0} → ⦃meter : Meter W⦄ → Run W → Result X (WorkOrderResult O) → Run W → Type 0
Story ⦃meter = meter⦄ s (ok r) s' =
    (n : ℕ) × (meter.read s'.world ≡ times n meter.tick (meter.read s.world))
    × (entries : List UsageRecord) × (types_of s'
        ≡ types_of s ++ (opening r.status ++ (rounds n ++ closing r.status ∷ [])))
    × (s'.ledger ≡ s.ledger ++ entries)
    × (length entries ≡ charged r.status)
    × (charged r.status ≤ n)
    × ((opening r.status ≡ task_planned ∷ []) ⊎ (n ≡ 0))
Story ⦃meter = meter⦄ s (err x) s' =
    (n : ℕ) × (meter.read s'.world ≡ times n meter.tick (meter.read s.world))
    × (types_of s' ≡ types_of s ++ (task_planned ∷ rounds n))
    × (s'.ledger ≡ s.ledger)

module _ {W X I O : Type 0} ⦃meter : Meter W⦄ (deps : OrchestratorDeps W X I O)
    (order : WorkOrder I) (still : Still deps order meter.read)
    (models : (id : String) (a : ModelAdapter W X)
      → deps.resolve_model_adapter id ≡ some a
      → Ticks meter a)
    (capabilities : (id : String) (a : CapabilityAdapter W X (Option I) O)
      → resolve deps order deps.resolve_capability_adapter id ≡ some a
      → Ticks meter a) where
  planned-read :
      (n : ℕ) (s t : Run W)
      → meter.read t.world ≡ times n meter.tick (meter.read (emit deps order task_planned s).world)
      → meter.read t.world ≡ times n meter.tick (meter.read s.world)
  planned-read n s t h = h ∙ ap (times n meter.tick) (emit-read deps order still task_planned s)

  route_Story :
      (s : Run W) (o : Result X (WorkOrderResult O)) (t : Run W)
      → Ends (emit deps order task_planned s) o t
      → Story s o t
  route_Story s (ok r) t c = (
    c.attempts,
    planned-read c.attempts s t c.ran,
    c.entries,
    rw c.planned (
        c.told
        ∙ ap (λ xs. xs ++ (rounds c.attempts ++ closing r.status ∷ []))
            (emit-types deps order still task_planned s)
        ∙ append_assoc_lem (types_of s) (task_planned ∷ []) _),
    c.billed ∙ ap (λ l. l ++ c.entries) (emit-ledger deps order still task_planned s),
    c.counted,
    c.worked,
    inl c.planned,
  )
  route_Story s (err x) t c = (
    c.attempts,
    planned-read c.attempts s t c.ran,
    c.told
        ∙ ap (λ xs. xs ++ rounds c.attempts) (emit-types deps order still task_planned s)
        ∙ append_assoc_lem (types_of s) (task_planned ∷ []) (rounds c.attempts),
    c.unbilled ∙ emit-ledger deps order still task_planned s,
  )

  stopped_Story :
      (s : Run W) (r : WorkOrderResult O)
      → opening r.status ≡ []
      → charged r.status ≡ 0
      → Story {X = X} s (ok r) (emit deps order (closing r.status) s)
  stopped_Story s r o c = (
    0,
    emit-read deps order still (closing r.status) s,
    [],
    rw o (emit-types deps order still (closing r.status) s),
    emit-ledger deps order still (closing r.status) s ∙ sym (append-nil_lem s.ledger),
    sym c,
    omega arith,
    inr refl,
  )

  route-Told : (s : Run W) → Story s (route deps order s).0 (route deps order s).1
  unfolding route
  route-Told s = route_Story s _ _ (
      run_routed-Told deps order still models capabilities
        (route_work (routing_input deps order) deps.work_registry) (emit deps order task_planned s))

  effect_Story :
      (d : PolicyDecision) (e : PolicyEffect) (s : Run W)
      → Story s (gate_effect deps order d e s).0 (gate_effect deps order d e s).1
  effect_Story d allow s = route-Told s
  effect_Story d deny s =
      stopped_Story s (record (result denied) { reason = some (policy_reason_name d.reason) }) refl
        refl
  effect_Story d requires_approval s =
      stopped_Story s
        (record (result approval_required) { reason = some (policy_reason_name d.reason) }) refl
        refl

  gate-Story :
      (p : Option OrderPolicy) (s : Run W) → Story s (gate deps order p s).0 (gate deps order p s).1
  gate-Story none s = route-Told s
  gate-Story (some policy) s = let d = evaluate (order_input policy) in effect_Story d d.effect s

  -- Every execution tells the story of its outcome. Whatever is read of the world that every
  -- call of a wired adapter's `execute` ticks once, and that neither an estimate nor the
  -- making of an identifier changes, has ticked n times after it, and the events of a result
  -- are the planning event (none where the policy gate stops the order, and then n is 0), a
  -- pair of `worker.started` and `tool.called` for each of the n calls, and at the end the one
  -- event that belongs to the status; one usage record is added if the order is completed,
  -- after at least one call, and none otherwise. Where an estimate throws, the events are the
  -- planning event and the pairs of the calls so far, and nothing is charged.
  pub execute_work_order-Story :
      (s : Run W) → Story s (execute_work_order deps order s).0 (execute_work_order deps order s).1
  unfolding execute_work_order
  execute_work_order-Story s = gate-Story order.policy s
