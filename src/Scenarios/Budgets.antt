-- ===== src/Scenarios/Budgets.antt =====
-- An order with a budget that no estimate fits (packages/orchestrator).
use donnav.Common.{ℕ, suc, String, [], ◌≡◌, refl, subst, arith, none, some, ok, some_injective}
use donnav.Adapter.Contracts.{CapabilityAdapter, ModelAdapter, ErrorClass}
use donnav.Config.Models.{model_registry}
use donnav.Cost.Budget.{BudgetScope}
use donnav.Events.Create.{Platform}
use donnav.Orchestrator.Order.{OrderBudget, WorkOrder, OrchestratorDeps, Run}
use donnav.Orchestrator.Execute.{resolve, execute_work_order}
use donnav.Orchestrator.Budgets.{Unaffordable, Still, Kept}
use donnav.Orchestrator.Unaffordable.{execute_work_order-Kept}
use donnav.Scenarios.Orders.{asked}

-- The world counts the identifiers that were made and the executions.
abbrev World : Type 0
World = ℕ × ℕ

abbrev platform : Platform World
platform = record { random_uuid = λ w. ("uuid", (suc w.0, w.1)); now = λ w. w.0 }

abbrev executions : World → ℕ
executions w = w.1

abbrev dear : ModelAdapter World String
dear = record {
  id = "model";
  spec = record { id = "model"; name = "model"; version = "1"; capabilities = [] };
  estimate = λ i c w. (ok (record { cost_usd = 50; latency_ms = 1 }), w);
  execute = λ i c w. (
    ok (record {
      text = "done";
      usage = record {
        input_tokens = 4;
        cached_input_tokens = none;
        output_tokens = 2;
        reasoning_tokens = none;
        cost_usd = 50;
        latency_ms = 1;
      };
      finish_reason = "stop";
    }),
    (w.0, suc w.1),
  );
  report_usage = λ w. none;
  classify_error = λ x. ErrorClass.unknown;
}

abbrev deps : OrchestratorDeps World String (Unit {0}) (Unit {0})
deps = record {
  platform = platform;
  work_registry = [];
  model_registry = model_registry;
  resolve_model_adapter = λ id. some dear;
  resolve_capability_adapter = none;
}

abbrev budget : OrderBudget
budget = record {
  budget = record { scope = BudgetScope.task; scope_ref = "t1"; limit_usd = 60 };
  spent_usd = 20;
}

abbrev limited : WorkOrder (Unit {0})
limited = record asked { budget = some budget }

abbrev start : Run World
start = record { world = (0, 0); events = []; ledger = [] }

dear-Unaffordable : Unaffordable executions budget dear
dear-Unaffordable i c w = (refl, λ e h. ground arith)

models-Unaffordable :
    (id : String) (a : ModelAdapter World String)
    → deps.resolve_model_adapter id ≡ some a
    → Unaffordable executions budget a
models-Unaffordable id a e =
    subst (Unaffordable executions budget) (some_injective dear a e) dear-Unaffordable

none_wired :
    (id : String) (a : CapabilityAdapter World String _ (Unit {0}))
    → resolve deps limited deps.resolve_capability_adapter id ≡ some a
    → Unaffordable executions budget a
none_wired id a e = absurd (ground arith)

still : Still deps limited executions
still w = refl

execute_work_order-Kept_example :
    Kept deps limited executions start (execute_work_order deps limited start)
execute_work_order-Kept_example =
    execute_work_order-Kept deps limited executions budget refl still models-Unaffordable none_wired
      start
