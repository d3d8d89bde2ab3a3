-- ===== src/Adapter/Completions.antt =====
-- What packages/adapters/model-openai/src/openai-adapter.ts and
-- packages/adapters/model-anthropic/src/anthropic-adapter.ts do alike, and spell out each: the
-- count of tokens before a call, the estimate, and the usage after it.
use Prim.Native.Char.{code}
use donnav.Common.{ℕ, String, List, ◌+◌, ◌/◌, leb, none, get_or, sum_by, if◌then◌else◌}
use donnav.Config.Models.{ModelEntry}
use donnav.Cost.Budget.{TokenUsage, estimate_cost_usd}
use donnav.Adapter.Contracts.{CostEstimate, AdapterUsage, ModelMessage, ModelRequest, ModelUsage}

-- `s.length`: a character beyond the first plane is two units.
js_length : String → ℕ
js_length String.[] = 0
js_length (String.◌∷◌ c s) = (if leb 65536 (code c) then 2 else 1) + js_length s

-- `Math.ceil(chars / 4)`
unfoldable pub approx_tokens : List ModelMessage → ℕ
unfolding js_length
approx_tokens messages = (sum_by (λ m. js_length m.content) messages + 3) / 4

unfoldable pub estimate_request : ModelEntry → ℕ → ModelRequest → CostEstimate
estimate_request model default_max_output_tokens input = record {
  cost_usd = estimate_cost_usd model (record {
    input_tokens = approx_tokens input.messages;
    cached_input_tokens = none;
    output_tokens = get_or input.max_output_tokens default_max_output_tokens;
  });
  latency_ms = 0;
}

unfoldable pub usage_of : ModelEntry → TokenUsage → ℕ → ModelUsage
usage_of model tokens latency_ms = record {
  input_tokens = tokens.input_tokens;
  cached_input_tokens = tokens.cached_input_tokens;
  output_tokens = tokens.output_tokens;
  reasoning_tokens = none;
  cost_usd = estimate_cost_usd model tokens;
  latency_ms = latency_ms;
}

-- `lastUsage`, whose `details` no code reads.
abbrev pub last_usage_of : ModelUsage → AdapterUsage
last_usage_of usage = record { cost_usd = usage.cost_usd; latency_ms = usage.latency_ms }
