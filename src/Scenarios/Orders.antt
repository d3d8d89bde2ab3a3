-- ===== src/Scenarios/Orders.antt =====
-- The execution of an order with a model that answers (packages/orchestrator).
use donnav.Common.{suc, subst, some_injective, ℕ, String, [], ◌∷◌, ◌≡◌, refl, none, some, ok}
use donnav.Adapter.Contracts.{ModelAdapter, ModelRequest, user, ErrorClass}
use donnav.Config.Models.{model_registry}
use donnav.Orchestrator.Order.{WorkOrder, OrchestratorDeps, Run}
use donnav.Events.Create.{Platform}
use donnav.Orchestrator.Traces.{Meter, Ticks}
use donnav.Orchestrator.Execute.{execute_work_order}
use donnav.Orchestrator.Story.{Story, execute_work_order-Story}
use donnav.Scenarios.Commits.{platform, order}

abbrev pub adapter : ModelAdapter ℕ String
adapter = record {
  id = "model";
  spec = record { id = "model"; name = "model"; version = "1"; capabilities = [] };
  estimate = λ i c w. (ok (record { cost_usd = 3; latency_ms = 1 }), w);
  execute = λ i c w. (
    ok (record {
      text = "done";
      usage = record {
        input_tokens = 4;
        cached_input_tokens = none;
        output_tokens = 2;
        reasoning_tokens = none;
        cost_usd = 3;
        latency_ms = 1;
      };
      finish_reason = "stop";
    }),
    w,
  );
  report_usage = λ w. none;
  classify_error = λ x. ErrorClass.unknown;
}

abbrev pub deps : OrchestratorDeps ℕ String (Unit {0}) (Unit {0})
deps = record {
  platform = platform;
  work_registry = [];
  model_registry = model_registry;
  resolve_model_adapter = λ id. some adapter;
  resolve_capability_adapter = none;
}

abbrev pub request : ModelRequest
request = record {
  messages = record { role = user; content = "write" } ∷ [];
  max_output_tokens = none;
  reasoning_tier = none;
}

abbrev pub asked : WorkOrder (Unit {0})
asked = record order { model_request = some request }

-- A world of a clock and a count of the calls of `execute`.
abbrev Counted : Type 0
Counted = ℕ × ℕ

abbrev counting_platform : Platform Counted
counting_platform = record { random_uuid = λ w. ("uuid", (suc w.0, w.1)); now = λ w. w.0 }

abbrev counting_adapter : ModelAdapter Counted String
counting_adapter = record {
  id = "model";
  spec = record { id = "model"; name = "model"; version = "1"; capabilities = [] };
  estimate = λ i c w. (ok (record { cost_usd = 3; latency_ms = 1 }), w);
  execute = λ i c w. ((adapter.execute i c w.0).0, (w.0, suc w.1));
  report_usage = λ w. none;
  classify_error = λ x. ErrorClass.unknown;
}

abbrev counting_deps : OrchestratorDeps Counted String (Unit {0}) (Unit {0})
counting_deps = record {
  platform = counting_platform;
  work_registry = [];
  model_registry = model_registry;
  resolve_model_adapter = λ id. some counting_adapter;
  resolve_capability_adapter = none;
}

instance abbrev meter : Meter Counted
meter = record { Reading = ℕ; read = λ w. w.1; tick = suc }

counting_adapter-Ticks : Ticks meter counting_adapter
counting_adapter-Ticks i c w = (refl, refl)

wired-Ticks :
    (id : String) (a : ModelAdapter Counted String)
    → counting_deps.resolve_model_adapter id ≡ some a
    → Ticks meter a
wired-Ticks id a e =
    subst (Ticks meter) (some_injective counting_adapter a e) counting_adapter-Ticks

abbrev start : Run Counted
start = record { world = (0, 0); events = []; ledger = [] }

execute_work_order-Story_example :
    Story start
      (execute_work_order counting_deps asked start).0
      (execute_work_order counting_deps asked start).1
execute_work_order-Story_example =
    execute_work_order-Story counting_deps asked (λ w. refl) wired-Ticks (λ id a e. cc) start
