-- ===== src/Orchestrator/Execute.antt =====
-- packages/orchestrator/src/orchestrator.ts: `executeWorkOrder`, its two loops and their order.
use donnav.Common.{
  String, Bool, true, false, List, [], ◌∷◌, Option, none, some, get_or, is_true, not, Result, ok,
  if◌then◌else◌, ◌==◌,
}
use donnav.Domain.Events.{approval_requested, task_planned, task_blocked, task_failed}
use donnav.Domain.Tasks.{ExecutionClass, human, cloud_ai, is_ai_execution_class, class_eq}
use donnav.Policy.Types.{
  PolicyReason, PolicyEffect, allow, deny, requires_approval, PolicyDecision, PolicyInput,
}
use donnav.Policy.Engine.{evaluate}
use donnav.Adapter.Contracts.{ErrorClass, CapabilityAdapter, ModelRequest}
use donnav.Adapter.Health.{is_retryable}
use donnav.Config.Models.{ModelEntry}
use donnav.Routing.Registry.{RegisteredCapability}
use donnav.Routing.Work.{
  WorkRoutingInput, WorkRoutingReason, human_required, capability_matched, ai_reasoning_required,
  no_capability_fallback_human, WorkRoutingDecision, route_work, candidate_capabilities,
}
use donnav.Routing.Models.{ModelRoutingInput, ModelRoutingDecision, route_model}
use donnav.Orchestrator.Order.{
  OrderPolicy, WorkOrder, awaiting_human, approval_required, denied, blocked, failed,
  WorkOrderResult, OrchestratorDeps, Run,
}
use donnav.Orchestrator.Steps.{
  result, Attempt, settled, retry_next, emit, try_capability, try_model,
}

abbrev pub policy_reason_name : PolicyReason → String
policy_reason_name PolicyReason.ok = "ok"
policy_reason_name PolicyReason.approval_required = "approval_required"
policy_reason_name PolicyReason.cross_tenant = "cross_tenant"
policy_reason_name PolicyReason.scope_denied = "scope_denied"
policy_reason_name PolicyReason.insufficient_authority = "insufficient_authority"
policy_reason_name PolicyReason.never_autonomous = "never_autonomous"
policy_reason_name PolicyReason.kill_switch = "kill_switch"

abbrev pub routing_reason_name : WorkRoutingReason → String
routing_reason_name human_required = "human_required"
routing_reason_name capability_matched = "capability_matched"
routing_reason_name ai_reasoning_required = "ai_reasoning_required"
routing_reason_name no_capability_fallback_human = "no_capability_fallback_human"

-- `evaluate(order.policy)`: an order carries neither kill switches nor ceilings, so the defaults
-- apply.
abbrev pub order_input : OrderPolicy → PolicyInput
order_input p = record {
  principal = p.principal;
  action = p.action;
  resource = p.resource;
  kill_switches = none;
  role_ceilings = none;
}

module _ {W X I O : Type 0} (deps : OrchestratorDeps W X I O) (order : WorkOrder I) where
  abbrev pub Outcome : Type 0
  Outcome = Result X (WorkOrderResult O) × Run W

  abbrev pub routing_input : WorkRoutingInput
  routing_input = record {
    required_capabilities = order.required_capabilities;
    prefers_human = order.prefers_human;
    needs_reasoning = order.needs_reasoning;
  }

  abbrev pub model_input : ModelRoutingInput
  model_input = record {
    reasoning_tier = get_or order.reasoning_tier 5;
    needs_tools = order.needs_tools;
    needs_vision = order.needs_vision;
    require_local = order.require_local;
    min_context_tokens = order.min_context_tokens;
    exclude_providers = none;
  }

  -- The end of the model path: `lastErrorClass` is the class of the last failure, if any.
  abbrev pub model_exhausted : ExecutionClass → Option ErrorClass → Run W → Outcome
  model_exhausted class none s = (
    ok (record (result failed) { execution_class = some class; reason = some "no_adapter" }),
    emit deps order task_failed s,
  )
  model_exhausted class (some last) s = (
    ok (record (result failed) { execution_class = some class; reason = some "adapter_error" }),
    emit deps order task_failed s,
  )

  -- The end of one round of the model loop: a settled attempt returns, a failure that is retryable
  -- goes on with `next`, and any other breaks the loop.
  abbrev pub model_attempted :
      ExecutionClass → (ErrorClass → Outcome) → Attempt X O → Run W → Outcome
  model_attempted class next (settled r) s = (r, s)
  model_attempted class next (retry_next error_class) s =
      if is_retryable error_class
      then next error_class
      else model_exhausted class (some error_class) s

  -- The loop over the chain of models; a model without an adapter is skipped.
  unfoldable pub try_models :
      ExecutionClass → ModelRequest → List ModelEntry → Option ErrorClass → Run W → Outcome
  try_models class request [] last s = model_exhausted class last s
  try_models class request (entry ∷ chain) last s = elim (deps.resolve_model_adapter entry.id) [
    | none ↦ try_models class request chain last s
    | some adapter ↦
        let (attempt, t) = try_model deps order class request entry adapter s in
        model_attempted class (λ k. try_models class request chain (some k) t) attempt t
  ]

  abbrev pub ai_routed :
      ExecutionClass → ModelRequest → Option ModelRoutingDecision → Run W → Outcome
  ai_routed class request none s = (
    ok (record (result failed) { execution_class = some class; reason = some "no_eligible_model" }),
    emit deps order task_failed s,
  )
  ai_routed class request (some decision) s =
      try_models class request (decision.model ∷ decision.fallbacks) none s

  abbrev pub ai_requested : ExecutionClass → Option ModelRequest → Run W → Outcome
  ai_requested class none s = (
    ok (record (result failed) {
      execution_class = some class;
      reason = some "missing_model_request";
    }),
    emit deps order task_failed s,
  )
  ai_requested class (some request) s =
      ai_routed class request (route_model model_input deps.model_registry) s

  -- Part 3b of the source.
  unfoldable pub run_ai : ExecutionClass → Run W → Outcome
  run_ai class s = ai_requested class order.model_request s

  -- `deps.resolveCapabilityAdapter?.(id)`
  abbrev pub resolve :
      Option (String → Option (CapabilityAdapter W X (Option I) O))
      → String
      → Option (CapabilityAdapter W X (Option I) O)
  resolve none id = none
  resolve (some resolver) id = resolver id

  -- What follows the loop over the candidates.
  abbrev pub capabilities_exhausted : WorkRoutingDecision → Bool → Run W → Outcome
  capabilities_exhausted routing attempted s =
      if not attempted
      then (
        ok (record (result blocked) {
          execution_class = some routing.execution_class;
          reason = some "no_capability_adapter";
          capability_id = routing.capability_id;
        }),
        emit deps order task_blocked s,
      )
      else if not (is_true order.needs_reasoning)
      then (
        ok (record (result failed) {
          execution_class = some routing.execution_class;
          reason = some "adapter_error";
          capability_id = routing.capability_id;
        }),
        emit deps order task_failed s,
      )
      else run_ai cloud_ai s

  -- The end of one round of the loop over the candidates.
  abbrev pub capability_attempted : (ErrorClass → Outcome) → Attempt X O → Run W → Outcome
  capability_attempted next (settled r) s = (r, s)
  capability_attempted next (retry_next error_class) s = next error_class

  -- The loop over the candidates; one that is not wired is skipped.
  unfoldable pub try_capabilities :
      WorkRoutingDecision → List RegisteredCapability → Bool → Run W → Outcome
  try_capabilities routing [] attempted s = capabilities_exhausted routing attempted s
  try_capabilities routing (candidate ∷ rest) attempted s =
      elim (resolve deps.resolve_capability_adapter candidate.id) [
        | none ↦ try_capabilities routing rest attempted s
        | some adapter ↦
            let (attempt, t) = try_capability deps order candidate adapter s in
            capability_attempted (λ _. try_capabilities routing rest true t) attempt t
      ]

  -- From the decision of the Work Router on.
  unfoldable pub run_routed : WorkRoutingDecision → Run W → Outcome
  run_routed routing s =
      if routing.execution_class == human
      then (
        ok (record (result awaiting_human) {
          execution_class = some human;
          reason = some (routing_reason_name routing.reason);
        }),
        emit deps order task_blocked s,
      )
      else if not (is_ai_execution_class routing.execution_class)
      then try_capabilities routing (candidate_capabilities routing_input deps.work_registry) false
          s
      else run_ai routing.execution_class s

  -- Part 2 of the source.
  unfoldable pub route : Run W → Outcome
  route s =
      run_routed (route_work routing_input deps.work_registry) (emit deps order task_planned s)

  abbrev pub gate_effect : PolicyDecision → PolicyEffect → Run W → Outcome
  gate_effect decision deny s = (
    ok (record (result denied) { reason = some (policy_reason_name decision.reason) }),
    emit deps order task_blocked s,
  )
  gate_effect decision requires_approval s = (
    ok (record (result approval_required) { reason = some (policy_reason_name decision.reason) }),
    emit deps order approval_requested s,
  )
  gate_effect decision allow s = route s

  -- Part 1 of the source.
  abbrev pub gate : Option OrderPolicy → Run W → Outcome
  gate none s = route s
  gate (some policy) s =
      let decision = evaluate (order_input policy) in gate_effect decision decision.effect s

  unfoldable pub execute_work_order : Run W → Outcome
  execute_work_order s = gate order.policy s
