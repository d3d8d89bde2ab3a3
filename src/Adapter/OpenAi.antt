-- ===== src/Adapter/OpenAi.antt =====
-- packages/adapters/model-openai/src/openai-adapter.ts and client.ts. The client, the clock and
-- the errors of the library `openai` are parameters.
use Prim.Native.String.{◌++◌ as concat}
use donnav.Common.{
  ℕ, String, Bool, false, List, [], ◌∷◌, ◌-◌, ◌==◌, ◌||◌, nat_eq, leb, Option, none, some, get_or,
  Result, ok, err, if◌then◌else◌,
}
use donnav.Common.Json.{Value, text, array, object, Values, no_items, item}
use donnav.Common.Objects.{object_of}
use donnav.Config.Models.{ModelEntry}
use donnav.Cost.Budget.{TokenUsage}
use donnav.Orchestrator.Json.{number_value}
use donnav.Adapter.Contracts.{
  ErrorClass, transient, rate_limit, unavailable, auth, deterministic, unknown, ModelRole, system,
  assistant, ModelMessage, ModelRequest, ModelResult, ModelAdapter,
}
use donnav.Adapter.Completions.{estimate_request, usage_of, last_usage_of}
use donnav.Adapter.Function.{Metered}

pub record ChatChoice : Type 0 where
  pub content : Option String
  pub finish_reason : Option String

pub record ChatUsage : Type 0 where
  pub prompt_tokens : ℕ
  pub completion_tokens : ℕ
  pub cached_tokens : Option ℕ

pub record ChatCompletion : Type 0 where
  pub choices : List ChatChoice
  pub usage : Option ChatUsage

-- `client.chat.completions.create`
abbrev pub ChatClient : Type 0 → Type 0 → Type 0
ChatClient W X = Value → W → Result X ChatCompletion × W

-- `new OpenAI({ apiKey, baseURL })`, the clock, and the status of an error that is an `APIError`.
pub record OpenAiSdk (W X : Type 0) : Type 0 where
  pub connect : Option String → Option String → ChatClient W X
  pub now : W → ℕ
  pub api_error : X → Option (Option ℕ)

pub record OpenAiOptions (W X : Type 0) : Type 0 where
  pub model : ModelEntry
  pub client : Option (ChatClient W X)
  pub api_key : Option String
  pub base_url : Option String
  pub id_prefix : Option String
  pub name_prefix : Option String
  pub default_max_output_tokens : Option ℕ
  pub reasoning_effort : Option Bool

unfoldable pub reasoning_effort_for_tier : ℕ → String
reasoning_effort_for_tier tier =
    if leb tier 3 then "low" else if leb tier 7 then "medium" else "high"

abbrev pub to_openai_role : ModelRole → String
to_openai_role system = "system"
to_openai_role assistant = "assistant"
to_openai_role _ = "user"

abbrev chat_message : ModelMessage → Value
chat_message m = object (
    object_of
      (("role", some (text (to_openai_role m.role))) ∷ ("content", some (text m.content)) ∷ []))

abbrev chat_messages : List ModelMessage → Values
chat_messages [] = no_items
chat_messages (m ∷ ms) = item (chat_message m) (chat_messages ms)

-- The class of an error by the status of an `APIError`; a connection error has none.
abbrev class_of_status : Option ℕ → ErrorClass
class_of_status none = transient
class_of_status (some status) =
    if status == 429
    then rate_limit
    else if (status == 401) || (status == 403)
    then auth
    else if leb 500 status
    then unavailable
    else if leb 400 status
    then deterministic
    else transient

unfoldable pub classify_openai_error : Option (Option ℕ) → ErrorClass
classify_openai_error none = unknown
classify_openai_error (some status) = class_of_status status

-- The tokens that a completion names; without a usage they are 0.
abbrev pub tokens_of_usage : Option ChatUsage → TokenUsage
tokens_of_usage none = record { input_tokens = 0; cached_input_tokens = none; output_tokens = 0 }
tokens_of_usage (some usage) = record {
  input_tokens = usage.prompt_tokens;
  cached_input_tokens = usage.cached_tokens;
  output_tokens = usage.completion_tokens;
}

abbrev first_choice : List ChatChoice → Option ChatChoice
first_choice [] = none
first_choice (choice ∷ choices) = some choice

abbrev text_of_choice : Option ChatChoice → String
text_of_choice none = ""
text_of_choice (some choice) = get_or choice.content ""

abbrev finish_of_choice : Option ChatChoice → String
finish_of_choice none = "stop"
finish_of_choice (some choice) = get_or choice.finish_reason "stop"

module _ {W X : Type 0} (sdk : OpenAiSdk W X) (options : OpenAiOptions W X) where
  abbrev pub openai_id : String
  openai_id = concat (get_or options.id_prefix "openai") (concat ":" options.model.id)

  -- `options.client ?? new …`
  abbrev pub chat_client : ChatClient W X
  chat_client = get_or options.client (sdk.connect options.api_key options.base_url)

  abbrev pub openai_max_output_tokens : ℕ
  openai_max_output_tokens = get_or options.default_max_output_tokens 16000

  -- `buildParams`
  unfoldable pub build_chat_params : ModelRequest → Value
  build_chat_params input = object (
      object_of (
        ("model", some (text options.model.id))
        ∷ ("messages", some (array (chat_messages input.messages)))
        ∷ (
          "max_tokens",
          some (number_value (get_or input.max_output_tokens openai_max_output_tokens)),
        )
        ∷ (
          "reasoning_effort",
          if get_or options.reasoning_effort false
              then some (text (reasoning_effort_for_tier (get_or input.reasoning_tier 5)))
              else none,
        )
        ∷ []))

  abbrev pub chat_result : ChatCompletion → ℕ → ModelResult
  chat_result completion latency_ms = record {
    text = text_of_choice (first_choice completion.choices);
    usage = usage_of options.model (tokens_of_usage completion.usage) latency_ms;
    finish_reason = finish_of_choice (first_choice completion.choices);
  }

  -- What the client throws leaves the last usage as it was. The clock does not run backwards.
  abbrev pub chat_completed :
      ℕ → Result X ChatCompletion × W → Metered W → Result X ModelResult × Metered W
  chat_completed start (err x, w) s = (err x, record { world = w; last_usage = s.last_usage })
  chat_completed start (ok completion, w) s =
      let result = chat_result completion (sdk.now w - start) in
      (ok result, record { world = w; last_usage = some (last_usage_of result.usage) })

  unfoldable pub execute_chat : ModelRequest → Metered W → Result X ModelResult × Metered W
  execute_chat input s =
      chat_completed (sdk.now s.world) (chat_client (build_chat_params input) s.world) s

  -- `OpenAiModelAdapter`
  unfoldable pub openai_adapter : ModelAdapter (Metered W) X
  openai_adapter = record {
    id = openai_id;
    spec = record {
      id = openai_id;
      name = concat (get_or options.name_prefix "OpenAI") (concat " " options.model.display_name);
      version = "1";
      capabilities = "model.generate" ∷ concat "model:" options.model.id ∷ [];
    };
    estimate =
        λ input context s. (ok (estimate_request options.model openai_max_output_tokens input), s);
    execute = λ input context s. execute_chat input s;
    report_usage = λ s. s.last_usage;
    classify_error = λ x. classify_openai_error (sdk.api_error x);
  }
