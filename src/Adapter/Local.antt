-- ===== src/Adapter/Local.antt =====
-- packages/adapters/model-local/src/local-adapter.ts: a local model behind a server that speaks
-- the contract of OpenAI.
use donnav.Common.{ℕ, String, Bool, Option, some, get_or}
use donnav.Config.Models.{ModelEntry}
use donnav.Adapter.Contracts.{ModelAdapter}
use donnav.Adapter.Function.{Metered}
use donnav.Adapter.OpenAi.{ChatClient, OpenAiSdk, OpenAiOptions, openai_adapter}

pub record LocalOptions (W X : Type 0) : Type 0 where
  pub model : ModelEntry
  pub base_url : String
  pub api_key : Option String
  pub client : Option (ChatClient W X)
  pub default_max_output_tokens : Option ℕ
  pub reasoning_effort : Option Bool

abbrev pub local_openai : {W X : Type 0} → LocalOptions W X → OpenAiOptions W X
local_openai options = record {
  model = options.model;
  client = options.client;
  api_key = some (get_or options.api_key "local");
  base_url = some options.base_url;
  id_prefix = some "local";
  name_prefix = some "Local";
  default_max_output_tokens = options.default_max_output_tokens;
  reasoning_effort = options.reasoning_effort;
}

-- `LocalModelAdapter`: every method is that of the adapter it is made of.
abbrev pub local_adapter :
    {W X : Type 0} → OpenAiSdk W X → LocalOptions W X → ModelAdapter (Metered W) X
local_adapter sdk options = openai_adapter sdk (local_openai options)
