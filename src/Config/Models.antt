-- ===== src/Config/Models.antt =====
-- packages/config/src/models.ts: the entries of the model registry. A rate per million tokens is
-- a whole number of 10⁻⁶ USD, so a number of tokens times a rate is a cost in units of 10⁻¹² USD,
-- exactly; all rates of the registry are such numbers. Floating-point rounding is not modelled.
use donnav.Common.{
  ℕ, String, Bool, true, false, List, [], ◌∷◌, ◌≡◌, Option, none, some, Eq, nat_beq, ◌↔◌, arith,
}

pub data ModelProvider : Type 0 where
  anthropic openai local : ModelProvider

abbrev pub provider_index : ModelProvider → ℕ
provider_index anthropic = 0
provider_index openai = 1
provider_index local = 2

pub provider_beq_iff :
    (a b : ModelProvider) → (nat_beq (provider_index a) (provider_index b) ≡ true) ↔ (a ≡ b)
provider_beq_iff a b = ground arith

instance abbrev pub provider_eq : Eq ModelProvider
provider_eq = record {
  same = λ a b. nat_beq (provider_index a) (provider_index b);
  same_iff = provider_beq_iff;
}

pub data ModelPrivacy : Type 0 where
  cloud_privacy local_privacy : ModelPrivacy

pub record ModelCapabilityFlags : Type 0 where
  pub tools : Bool
  pub vision : Bool
  pub reasoning : Bool

pub record ModelEntry : Type 0 where
  pub id : String
  pub provider : ModelProvider
  pub display_name : String
  pub context_tokens : ℕ
  pub input_cost_per_1m : ℕ
  pub output_cost_per_1m : ℕ
  pub cached_input_cost_per_1m : Option ℕ
  pub capabilities : ModelCapabilityFlags
  pub tier_low : ℕ
  pub tier_high : ℕ
  pub privacy : ModelPrivacy
  pub available : Bool

abbrev cloud_caps : ModelCapabilityFlags
cloud_caps = record { tools = true; vision = true; reasoning = true }

abbrev pub haiku : ModelEntry
haiku = record {
  id = "claude-haiku-4-5";
  provider = anthropic;
  display_name = "Claude Haiku 4.5";
  context_tokens = 200_000;
  input_cost_per_1m = 1_000_000;
  output_cost_per_1m = 5_000_000;
  cached_input_cost_per_1m = some 100_000;
  capabilities = cloud_caps;
  tier_low = 0;
  tier_high = 4;
  privacy = cloud_privacy;
  available = true;
}

abbrev sonnet : ModelEntry
sonnet = record {
  id = "claude-sonnet-5";
  provider = anthropic;
  display_name = "Claude Sonnet 5";
  context_tokens = 1_000_000;
  input_cost_per_1m = 2_000_000;
  output_cost_per_1m = 10_000_000;
  cached_input_cost_per_1m = some 200_000;
  capabilities = cloud_caps;
  tier_low = 3;
  tier_high = 7;
  privacy = cloud_privacy;
  available = true;
}

abbrev pub opus : ModelEntry
opus = record {
  id = "claude-opus-5";
  provider = anthropic;
  display_name = "Claude Opus 5";
  context_tokens = 1_000_000;
  input_cost_per_1m = 5_000_000;
  output_cost_per_1m = 25_000_000;
  cached_input_cost_per_1m = some 500_000;
  capabilities = cloud_caps;
  tier_low = 6;
  tier_high = 9;
  privacy = cloud_privacy;
  available = true;
}

abbrev pub fable : ModelEntry
fable = record {
  id = "claude-fable-5-1";
  provider = anthropic;
  display_name = "Claude Fable 5.1";
  context_tokens = 1_000_000;
  input_cost_per_1m = 10_000_000;
  output_cost_per_1m = 50_000_000;
  cached_input_cost_per_1m = some 250_000;
  capabilities = cloud_caps;
  tier_low = 8;
  tier_high = 10;
  privacy = cloud_privacy;
  available = true;
}

abbrev openai_frontier : ModelEntry
openai_frontier = record {
  id = "openai-frontier-placeholder";
  provider = openai;
  display_name = "OpenAI frontier (placeholder)";
  context_tokens = 400_000;
  input_cost_per_1m = 5_000_000;
  output_cost_per_1m = 20_000_000;
  cached_input_cost_per_1m = none;
  capabilities = cloud_caps;
  tier_low = 6;
  tier_high = 9;
  privacy = cloud_privacy;
  available = false;
}

abbrev local_small : ModelEntry
local_small = record {
  id = "local-small-placeholder";
  provider = local;
  display_name = "Local small model (placeholder)";
  context_tokens = 32_000;
  input_cost_per_1m = 0;
  output_cost_per_1m = 0;
  cached_input_cost_per_1m = none;
  capabilities = record { tools = false; vision = false; reasoning = false };
  tier_low = 0;
  tier_high = 3;
  privacy = local_privacy;
  available = false;
}

unfoldable pub model_registry : List ModelEntry
model_registry = haiku ∷ sonnet ∷ opus ∷ fable ∷ openai_frontier ∷ local_small ∷ []
