-- ===== src/Scenarios/Models.antt =====
-- The adapters of models and their resolver at concrete inputs (packages/adapters/model-openai,
-- model-anthropic and model-local, apps/worker/src/model-adapters.ts). The world is a clock.
use donnav.Common.{
  ◌≢◌, some_injective, ◌↔◌, ℕ, String, true, List, [], ◌∷◌, map, ap, eq_iff, sym, ◌∙◌, ◌≡◌, ◌+◌,
  refl, arith, inl, inr, ◌⊎◌, Option, none, some, In, ok, ◌==◌, string_eq, if◌then◌else◌,
}
use donnav.Cost.Budget.{estimate_cost_usd}
use donnav.Config.Models.{ModelEntry, local, local_privacy, haiku}
use donnav.Adapter.Contracts.{system, user, ModelRequest, ModelResult}
use donnav.Adapter.Function.{Metered}
use donnav.Adapter.Completions.{usage_of}
use donnav.Adapter.OpenAi.{classify_openai_error}
use donnav.Adapter.Anthropic.{
  AnthropicSdk, AnthropicOptions, MessageResponse, api_error, classify_anthropic_error,
  text_of_blocks, execute_messages,
}
use donnav.Adapter.VendorLaws.{Explained, classify_anthropic_error-classify_openai_error_iff}
use donnav.Routing.Models.{ModelRoutingInput, ModelRoutingDecision, is_eligible, route_model}
use donnav.Common.Sort.{sort_by}
use donnav.Common.Text.{decimal}
use donnav.Worker.Models.{Vendor, local_vendor, by_id, bind_provider}
use donnav.Worker.ModelLaws.{
  IsRegistry, AtLocalEndpoint, bound, resolve_each, resolve_each-bound, route_model-AtLocalEndpoint,
}

-- A model at the local server that is up.
abbrev llama : ModelEntry
llama = record haiku { id = "llama"; provider = local; privacy = local_privacy }

abbrev models : List ModelEntry
models = haiku ∷ llama ∷ []

abbrev private_request : ModelRoutingInput
private_request = record {
  reasoning_tier = 2;
  needs_tools = none;
  needs_vision = none;
  require_local = some true;
  min_context_tokens = none;
  exclude_providers = none;
}

abbrev environment : String → Option String
environment name = if name == "LOCAL_MODEL_BASE_URL" then some "http://127.0.0.1:11434/v1" else none

other_id : llama.id ≡ haiku.id → ⊥
other_id e = ground (arith, eq_iff "llama" "claude-haiku-4-5")

named_llama : (m k : ModelEntry) → m ≡ haiku → k ≡ llama → k.id ≡ m.id → ⊥
named_llama m k a b e = other_id (sym (ap (λ x. x.id) b) ∙ e ∙ ap (λ x. x.id) a)

one_of_two : (m : ModelEntry) → In m models → (m ≡ haiku) ⊎ (m ≡ llama)
one_of_two m (inl a) = inl a
one_of_two m (inr (inl b)) = inr b
one_of_two m (inr (inr x)) = elim x [ ]

models-IsRegistry : IsRegistry models
models-IsRegistry = record {
  named_once = λ m k i j e. elim (one_of_two m i) [
    | inl a ↦ elim (one_of_two k j) [ inl b ↦ b ∙ sym a | inr b ↦ absurd (named_llama m k a b e) ]
    | inr a ↦ elim (one_of_two k j) [
      | inl b ↦ absurd (named_llama k m b a (sym e))
      | inr b ↦ b ∙ sym a
    ]
  ];
  local_provider = λ m i e. elim (one_of_two m i) [ inl a ↦ cc | inr b ↦ ap (λ x. x.provider) b ];
}

abbrev request : ModelRequest
request = record {
  messages =
      record { role = system; content = "Answer in one line." }
      ∷ record { role = user; content = "Which day is it?" }
      ∷ [];
  max_output_tokens = some 50;
  reasoning_tier = some 3;
}

abbrev response : MessageResponse
response = record {
  content = record { type = "text"; text = some "Monday" } ∷ [];
  stop_reason = none;
  usage = record { input_tokens = 8; cached_input_tokens = some 2; output_tokens = 3 };
}

abbrev anthropic_sdk : AnthropicSdk ℕ String
anthropic_sdk = record {
  connect = λ params w. (ok response, w + 40);
  now = λ w. w;
  error_class = λ x. api_error none;
}

abbrev haiku_options : AnthropicOptions ℕ String
haiku_options = record {
  model = haiku;
  client = none;
  enable_thinking = none;
  default_max_output_tokens = none;
}

abbrev before : Metered ℕ
before = record { world = 1000; last_usage = none }

-- 6 tokens that are not cached, 2 that are, and 3 of output.
abbrev answered : ModelResult
answered = record {
  text = "Monday";
  usage = record {
    input_tokens = 8;
    cached_input_tokens = some 2;
    output_tokens = 3;
    reasoning_tokens = none;
    cost_usd = 21_200_000;
    latency_ms = 40;
  };
  finish_reason = "end_turn";
}

abbrev after : Metered ℕ
after = record {
  world = 1040;
  last_usage = some (record { cost_usd = 21_200_000; latency_ms = 40 });
}

execution : execute_messages anthropic_sdk haiku_options request before ≡ (ok answered, after)
unfolding execute_messages text_of_blocks usage_of estimate_cost_usd
execution = refl

abbrev status : Option ℕ
status = some 529

other_status : status ≢ some 401
other_status e = omega (arith, some_injective 529 401 e)

forbidden : status ≢ some 403
forbidden e = omega (arith, some_injective 529 403 e)

classify_anthropic_error-classify_openai_error_iff_example :
    (classify_anthropic_error (api_error (some 529)) ≡ classify_openai_error (some (some 529)))
    ↔ Explained (api_error (some 529)) (some 529)
classify_anthropic_error-classify_openai_error_iff_example =
    classify_anthropic_error-classify_openai_error_iff (api_error (some 529)) (some 529)
      (refl, other_status, forbidden)

resolve_each-bound_example :
    let vendors : List (Option (Vendor ℕ String)) =
      resolve_each models environment ("llama" ∷ "gpt" ∷ "llama" ∷ []) [] in
    vendors ≡ map (bound models environment) ("llama" ∷ "gpt" ∷ "llama" ∷ [])
resolve_each-bound_example = resolve_each-bound models environment ("llama" ∷ "gpt" ∷ "llama" ∷ [])

abbrev decision : ModelRoutingDecision
decision = record {
  model = llama;
  fallbacks = [];
  reason = "Cheapest model covering tier 2: llama.";
}

decided : route_model private_request models ≡ some decision
unfolding route_model is_eligible sort_by decimal
decided = refl

abbrev bound_llama : Vendor ℕ String
bound_llama = local_vendor (record {
  model = llama;
  base_url = "http://127.0.0.1:11434/v1";
  api_key = none;
  client = none;
  default_max_output_tokens = none;
  reasoning_effort = none;
})

found_llama : bound models environment "llama" ≡ some bound_llama
unfolding by_id bind_provider
found_llama = refl

route_model-AtLocalEndpoint_example : AtLocalEndpoint environment bound_llama
route_model-AtLocalEndpoint_example =
    route_model-AtLocalEndpoint models environment private_request decision llama bound_llama
      models-IsRegistry refl decided (inl refl) found_llama
