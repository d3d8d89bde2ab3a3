-- ===== src/Adapter/Function.antt =====
-- packages/adapters/capability-fn/src/function-adapter.ts: a handler as a capability adapter. The
-- handler is the environment's code. The state is the world and the usage that was last recorded.
use donnav.Common.{ℕ, String, List, ◌-◌, Option, some, get_or, Result, ok, err}
use donnav.Adapter.Contracts.{AdapterUsage, ExecutionContext, deterministic, CapabilityAdapter}

pub record Metered (W : Type 0) : Type 0 where
  pub world : W
  pub last_usage : Option AdapterUsage

pub record FunctionCapabilityOptions (W X I O : Type 0) : Type 0 where
  pub id : String
  pub name : Option String
  pub version : Option String
  pub provides : List String
  pub handler : I → ExecutionContext → W → Result X O × W
  pub estimate_usd : Option ℕ

module _ {W X I O : Type 0} (now : W → ℕ) (options : FunctionCapabilityOptions W X I O) where
  abbrev pub cost : ℕ
  cost = get_or options.estimate_usd 0

  -- A throw of the handler leaves the last usage as it was. The clock does not run backwards.
  abbrev pub handled : ℕ → Result X O × W → Option AdapterUsage → Result X O × Metered W
  handled started_at (ok output, w) last = (
    ok output,
    record {
      world = w;
      last_usage = some (record { cost_usd = cost; latency_ms = now w - started_at });
    },
  )
  handled started_at (err x, w) last = (err x, record { world = w; last_usage = last })

  unfoldable pub execute_function : I → ExecutionContext → Metered W → Result X O × Metered W
  execute_function input context s =
      handled (now s.world) (options.handler input context s.world) s.last_usage

  -- `FunctionCapabilityAdapter`: an error of the handler is never one to retry.
  abbrev pub function_adapter : CapabilityAdapter (Metered W) X I O
  function_adapter = record {
    id = options.id;
    spec = record {
      id = options.id;
      name = get_or options.name options.id;
      version = get_or options.version "1";
      capabilities = options.provides;
    };
    estimate = λ input context s. (ok (record { cost_usd = cost; latency_ms = 0 }), s);
    execute = execute_function;
    report_usage = λ s. s.last_usage;
    classify_error = λ x. deterministic;
  }
