-- ===== src/Worker/Models.antt =====
-- apps/worker/src/model-adapters.ts: which adapter a model is bound to. The cache holds the
-- adapters that were built, one for a model, by what they were built with.
use donnav.Common.{String, List, [], ◌∷◌, ◌==◌, string_eq, Option, none, some, if◌then◌else◌}
use donnav.Common.Dict.{Dict, get, put}
use donnav.Config.Models.{ModelProvider, anthropic, openai, local, ModelEntry}
use donnav.Adapter.Contracts.{ModelAdapter}
use donnav.Adapter.Function.{Metered}
use donnav.Adapter.OpenAi.{OpenAiSdk, OpenAiOptions, openai_adapter}
use donnav.Adapter.Local.{LocalOptions, local_adapter}
use donnav.Adapter.Anthropic.{AnthropicSdk, AnthropicOptions, anthropic_adapter}

pub data Vendor (W X : Type 0) : Type 0 where
  anthropic_vendor : AnthropicOptions W X → Vendor W X
  openai_vendor : OpenAiOptions W X → Vendor W X
  local_vendor : LocalOptions W X → Vendor W X

abbrev pub adapter_of :
    {W X : Type 0} → AnthropicSdk W X → OpenAiSdk W X → Vendor W X → ModelAdapter (Metered W) X
adapter_of anthropic_sdk openai_sdk (anthropic_vendor options) =
    anthropic_adapter anthropic_sdk options
adapter_of anthropic_sdk openai_sdk (openai_vendor options) = openai_adapter openai_sdk options
adapter_of anthropic_sdk openai_sdk (local_vendor options) = local_adapter openai_sdk options

-- `value !== undefined && value !== ''`
abbrev pub non_empty : Option String → Option String
non_empty none = none
non_empty (some value) = if value == "" then none else some value

-- `new Map(registry.map((m) => [m.id, m]))`
unfoldable pub by_id : List ModelEntry → Dict String ModelEntry → Dict String ModelEntry
by_id [] models = models
by_id (m ∷ registry) models = by_id registry (put m.id m models)

module _ {W X : Type 0} where
  abbrev pub bind_openai : ModelEntry → Option String → Option String → Option (Vendor W X)
  bind_openai model none base_url = none
  bind_openai model (some api_key) base_url = some (
      openai_vendor (record {
        model = model;
        client = none;
        api_key = some api_key;
        base_url = base_url;
        id_prefix = none;
        name_prefix = none;
        default_max_output_tokens = none;
        reasoning_effort = none;
      }))

  abbrev pub bind_local : ModelEntry → Option String → Option String → Option (Vendor W X)
  bind_local model none api_key = none
  bind_local model (some base_url) api_key = some (
      local_vendor (record {
        model = model;
        base_url = base_url;
        api_key = api_key;
        client = none;
        default_max_output_tokens = none;
        reasoning_effort = none;
      }))

  -- The `switch` on the provider.
  unfoldable pub bind_provider :
      (String → Option String) → ModelProvider → ModelEntry → Option (Vendor W X)
  bind_provider env anthropic model = some (
      anthropic_vendor (record {
        model = model;
        client = none;
        enable_thinking = none;
        default_max_output_tokens = none;
      }))
  bind_provider env openai model =
      bind_openai model (non_empty (env "OPENAI_API_KEY")) (non_empty (env "OPENAI_BASE_URL"))
  bind_provider env local model =
      bind_local model (non_empty (env "LOCAL_MODEL_BASE_URL"))
        (non_empty (env "LOCAL_MODEL_API_KEY"))

  abbrev pub bind_found : (String → Option String) → Option ModelEntry → Option (Vendor W X)
  bind_found env none = none
  bind_found env (some model) = bind_provider env model.provider model

  abbrev pub with_cached :
      String → Option (Vendor W X) → Dict String (Vendor W X) → Dict String (Vendor W X)
  with_cached model_id none cache = cache
  with_cached model_id (some vendor) cache = put model_id vendor cache

  abbrev pub resolve_uncached :
      Option (Vendor W X)
      → Option (Vendor W X)
      → String
      → Dict String (Vendor W X)
      → Option (Vendor W X) × Dict String (Vendor W X)
  resolve_uncached (some cached) bound model_id cache = (some cached, cache)
  resolve_uncached none bound model_id cache = (bound, with_cached model_id bound cache)

  -- The resolver that `createModelAdapterResolver` makes.
  unfoldable pub resolve_model_adapter :
      List ModelEntry
      → (String → Option String)
      → String
      → Dict String (Vendor W X)
      → Option (Vendor W X) × Dict String (Vendor W X)
  resolve_model_adapter registry env model_id cache =
      resolve_uncached (get model_id cache) (bind_found env (get model_id (by_id registry [])))
        model_id cache
