-- ===== src/Orchestrator/Steps.antt =====
-- packages/orchestrator/src/orchestrator.ts: the steps of `executeWorkOrder` that touch the state.
-- Neither publishing to the worker's buffering bus, nor `reportUsage`, nor `classifyError` throws
-- here.
use donnav.Common.{
  ℕ, String, Bool, true, false, [], ◌∷◌, ◌++◌, Option, none, some, get_or, not, Result, ok, err,
  if◌then◌else◌,
}
use donnav.Domain.Events.{
  EventType, worker_started, tool_called, task_blocked, task_completed, task_failed, Actor,
  ActorType,
}
use donnav.Domain.Tasks.{ExecutionClass}
use donnav.Adapter.Contracts.{
  ExecutionContext, CapabilityAdapter, ModelAdapter, CostEstimate, AdapterUsage, ErrorClass,
  ModelRequest, ModelResult,
}
use donnav.Adapter.Health.{is_retryable}
use donnav.Config.Models.{ModelProvider, anthropic, openai, local, ModelEntry}
use donnav.Cost.Budget.{check_budget}
use donnav.Cost.Ledger.{UsageRecord, record_usage}
use donnav.Events.Create.{create_event}
use donnav.Routing.Registry.{RegisteredCapability}
use donnav.Orchestrator.Order.{
  WorkOrder, OrderBudget, WorkOrderStatus, completed, budget_exceeded, failed, WorkOrderResult,
  OrchestratorDeps, Run,
}

-- A result with nothing but its status; the other fields are added by record updates.
abbrev pub result : {O : Type 0} → WorkOrderStatus → WorkOrderResult O
result status = record {
  status = status;
  execution_class = none;
  model_id = none;
  capability_id = none;
  text = none;
  output = none;
  reason = none;
}

-- What an attempt with one adapter comes to: the order is settled, with a result or an error that
-- is thrown on, or the next candidate is tried after a failure of the given class.
pub data Attempt (X O : Type 0) : Type 0 where
  settled : Result X (WorkOrderResult O) → Attempt X O
  retry_next : ErrorClass → Attempt X O

abbrev pub no_context : ExecutionContext
no_context = record { idempotency_key = none; correlation_id = none }

-- `if (order.budget !== undefined) { … }` of both loops: the adapter is asked for an estimate only
-- if there is a budget, and the estimate may throw.
abbrev pub budget_gate :
    {W X : Type 0} → Option OrderBudget → (W → Result X CostEstimate × W) → W → Result X Bool × W
budget_gate none estimate w = (ok true, w)
budget_gate (some b) estimate w =
    let (r, w') = estimate w in
    elim r [
      | ok est ↦ (ok (check_budget b.budget b.spent_usd est.cost_usd).allowed, w')
      | err x ↦ (err x, w')
    ]

-- `usage?.costUsd ?? 0`, `usage?.latencyMs ?? 0`
abbrev cost_of : Option AdapterUsage → ℕ
cost_of none = 0
cost_of (some usage) = usage.cost_usd

abbrev latency_of : Option AdapterUsage → ℕ
latency_of none = 0
latency_of (some usage) = usage.latency_ms

abbrev provider_name : ModelProvider → String
provider_name anthropic = "anthropic"
provider_name openai = "openai"
provider_name local = "local"

module _ {W X I O : Type 0} (deps : OrchestratorDeps W X I O) (order : WorkOrder I) where
  abbrev default_actor : Actor
  default_actor = record { type = ActorType.orchestrator; id = "orchestrator" }

  -- The closure `emit`: the event is built and published to the buffering bus.
  unfoldable pub emit : EventType → Run W → Run W
  emit type s =
      let (event, world) =
        create_event deps.platform
          (record {
            type = type;
            organization_id = order.organization_id;
            actor = get_or order.actor default_actor;
            objective_id = none;
            task_id = order.task_id;
            correlation_id = order.correlation_id;
            causation_id = none;
            payload_ref = none;
            now = none;
          })
          s.world in
      record s { world = world; events = s.events ++ event ∷ [] }

  abbrev pub capability_context : ExecutionContext
  capability_context = record { idempotency_key = none; correlation_id = order.correlation_id }

  abbrev capability_record : RegisteredCapability → Option AdapterUsage → UsageRecord
  capability_record candidate usage = record {
    model_id = candidate.id;
    provider = "capability";
    input_tokens = 0;
    cached_input_tokens = none;
    output_tokens = 0;
    cost_usd = cost_of usage;
    latency_ms = latency_of usage;
    task_id = order.task_id;
    objective_id = none;
  }

  -- After `adapter.execute` has settled: the rest of the `try`, or the `catch`.
  abbrev pub capability_outcome :
      RegisteredCapability
      → CapabilityAdapter W X (Option I) O
      → Result X O
      → Run W
      → Attempt X O × Run W
  capability_outcome candidate adapter (ok output) s =
      let usage = adapter.report_usage s.world in
      let recorded = record s {
        ledger = record_usage (capability_record candidate usage) s.ledger;
      } in
      (
        settled (
            ok (record (result completed) {
              execution_class = some candidate.execution_class;
              output = some output;
              capability_id = some candidate.id;
            })),
        emit task_completed recorded,
      )
  capability_outcome candidate adapter (err error) s =
      let class = adapter.classify_error error in
      if not (is_retryable class)
      then (
        settled (
            ok (record (result failed) {
              execution_class = some candidate.execution_class;
              reason = some "adapter_error";
              capability_id = some candidate.id;
            })),
        emit task_failed s,
      )
      else (retry_next class, s)

  -- `emit('worker.started')`, `emit('tool.called')` and `adapter.execute`.
  abbrev pub start : Run W → Run W
  start s = emit tool_called (emit worker_started s)

  abbrev pub capability_execute :
      RegisteredCapability → CapabilityAdapter W X (Option I) O → Run W → Attempt X O × Run W
  capability_execute candidate adapter s =
      let t = start s in
      let (r, w) = adapter.execute order.capability_input capability_context t.world in
      capability_outcome candidate adapter r (record t { world = w })

  -- After the budget gate.
  abbrev pub capability_gated :
      RegisteredCapability
      → CapabilityAdapter W X (Option I) O
      → Result X Bool
      → Run W
      → Attempt X O × Run W
  capability_gated candidate adapter (ok true) s = capability_execute candidate adapter s
  capability_gated candidate adapter (ok false) s = (
    settled (
        ok (record (result budget_exceeded) {
          execution_class = some candidate.execution_class;
          capability_id = some candidate.id;
        })),
    emit task_blocked s,
  )
  capability_gated candidate adapter (err x) s = (settled (err x), s)

  -- One round of the loop over the candidates, with an adapter that is wired.
  unfoldable pub try_capability :
      RegisteredCapability → CapabilityAdapter W X (Option I) O → Run W → Attempt X O × Run W
  try_capability candidate adapter s =
      let (r, w) =
        budget_gate order.budget (adapter.estimate order.capability_input capability_context)
          s.world in
      capability_gated candidate adapter r (record s { world = w })

  abbrev model_record : ModelEntry → ModelResult → UsageRecord
  model_record entry result = record {
    model_id = entry.id;
    provider = provider_name entry.provider;
    input_tokens = result.usage.input_tokens;
    cached_input_tokens = result.usage.cached_input_tokens;
    output_tokens = result.usage.output_tokens;
    cost_usd = result.usage.cost_usd;
    latency_ms = result.usage.latency_ms;
    task_id = order.task_id;
    objective_id = none;
  }

  -- The same for one model of the chain. A failure that is not retryable ends the loop by `break`,
  -- so it is not settled here but told apart by its class.
  abbrev pub model_outcome :
      ExecutionClass
      → ModelEntry
      → ModelAdapter W X
      → Result X ModelResult
      → Run W
      → Attempt X O × Run W
  model_outcome class entry adapter (ok answer) s =
      let recorded = record s { ledger = record_usage (model_record entry answer) s.ledger } in
      (
        settled (
            ok (record (result completed) {
              execution_class = some class;
              model_id = some entry.id;
              text = some answer.text;
            })),
        emit task_completed recorded,
      )
  model_outcome class entry adapter (err error) s = (retry_next (adapter.classify_error error), s)

  abbrev pub model_execute :
      ExecutionClass → ModelRequest → ModelEntry → ModelAdapter W X → Run W → Attempt X O × Run W
  model_execute class request entry adapter s =
      let t = start s in
      let (r, w) = adapter.execute request no_context t.world in
      model_outcome class entry adapter r (record t { world = w })

  abbrev pub model_gated :
      ExecutionClass
      → ModelRequest
      → ModelEntry
      → ModelAdapter W X
      → Result X Bool
      → Run W
      → Attempt X O × Run W
  model_gated class request entry adapter (ok true) s = model_execute class request entry adapter s
  model_gated class request entry adapter (ok false) s = (
    settled (
        ok (record (result budget_exceeded) {
          execution_class = some class;
          model_id = some entry.id;
        })),
    emit task_blocked s,
  )
  model_gated class request entry adapter (err x) s = (settled (err x), s)

  unfoldable pub try_model :
      ExecutionClass → ModelRequest → ModelEntry → ModelAdapter W X → Run W → Attempt X O × Run W
  try_model class request entry adapter s =
      let (r, w) = budget_gate order.budget (adapter.estimate request no_context) s.world in
      model_gated class request entry adapter r (record s { world = w })
