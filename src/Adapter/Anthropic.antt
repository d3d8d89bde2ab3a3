-- ===== src/Adapter/Anthropic.antt =====
-- packages/adapters/model-anthropic/src/anthropic-adapter.ts and client.ts. The client, the clock
-- and the errors of the library `@anthropic-ai/sdk` are parameters.
use Prim.Native.String.{◌++◌ as concat}
use donnav.Common.{
  ℕ, String, Bool, true, false, List, [], ◌∷◌, map, filter, ◌-◌, ◌==◌, string_eq, nat_eq, leb, not,
  Option, none, some, get_or, Result, ok, err, if◌then◌else◌,
}
use donnav.Common.Json.{Value, text, array, object, Values, no_items, item}
use donnav.Common.Objects.{object_of}
use donnav.Config.Models.{ModelEntry}
use donnav.Cost.Budget.{TokenUsage}
use donnav.Orchestrator.Json.{number_value}
use donnav.Adapter.Contracts.{
  ErrorClass, transient, rate_limit, unavailable, auth, deterministic, unknown, ModelRole, system,
  assistant, ModelMessage, ModelRequest, ModelResult, ModelAdapter,
}
use donnav.Adapter.Completions.{estimate_request, usage_of, last_usage_of}
use donnav.Adapter.Function.{Metered}

pub record MessageBlock : Type 0 where
  pub type : String
  pub text : Option String

pub record MessageResponse : Type 0 where
  pub content : List MessageBlock
  pub stop_reason : Option String
  pub usage : TokenUsage

-- `client.messages.create`
abbrev pub MessagesClient : Type 0 → Type 0 → Type 0
MessagesClient W X = Value → W → Result X MessageResponse × W

-- The classes of errors that the library has, as `instanceof` tells them apart.
pub data SdkError : Type 0 where
  rate_limit_error authentication_error permission_denied_error : SdkError
  bad_request_error not_found_error unprocessable_entity_error : SdkError
  internal_server_error api_connection_error : SdkError
  api_error : Option ℕ → SdkError
  other_error : SdkError

-- `new Anthropic()`, the clock, and the class of what was thrown.
pub record AnthropicSdk (W X : Type 0) : Type 0 where
  pub connect : MessagesClient W X
  pub now : W → ℕ
  pub error_class : X → SdkError

pub record AnthropicOptions (W X : Type 0) : Type 0 where
  pub model : ModelEntry
  pub client : Option (MessagesClient W X)
  pub enable_thinking : Option Bool
  pub default_max_output_tokens : Option ℕ

unfoldable pub effort_for_tier : ℕ → String
effort_for_tier tier =
    if leb tier 2
    then "low"
    else if leb tier 5
    then "medium"
    else if leb tier 7
    then "high"
    else if leb tier 9
    then "xhigh"
    else "max"

abbrev pub is_system : ModelMessage → Bool
is_system m = is_system_role m.role
  where
    is_system_role : ModelRole → Bool
    is_system_role system = true
    is_system_role _ = false

-- `join(separator)`
abbrev pub join : String → List String → String
join separator [] = ""
join separator (s ∷ []) = s
join separator (s ∷ t ∷ ss) = concat s (concat separator (join separator (t ∷ ss)))

abbrev pub to_anthropic_role : ModelRole → String
to_anthropic_role assistant = "assistant"
to_anthropic_role _ = "user"

abbrev message_param : ModelMessage → Value
message_param m = object (
    object_of
      (("role", some (text (to_anthropic_role m.role))) ∷ ("content", some (text m.content)) ∷ []))

abbrev message_params : List ModelMessage → Values
message_params [] = no_items
message_params (m ∷ ms) = item (message_param m) (message_params ms)

unfoldable pub system_text : List ModelMessage → String
system_text messages = join "\n\n" (map (λ m. m.content) (filter is_system messages))

abbrev is_text_block : MessageBlock → Bool
is_text_block b = b.type == "text"

unfoldable pub text_of_blocks : List MessageBlock → String
text_of_blocks blocks = join "" (map (λ b. get_or b.text "") (filter is_text_block blocks))

abbrev class_of_api_error : Option ℕ → ErrorClass
class_of_api_error none = deterministic
class_of_api_error (some status) =
    if leb 500 status then unavailable else if status == 429 then rate_limit else deterministic

unfoldable pub classify_anthropic_error : SdkError → ErrorClass
classify_anthropic_error rate_limit_error = rate_limit
classify_anthropic_error authentication_error = auth
classify_anthropic_error permission_denied_error = auth
classify_anthropic_error bad_request_error = deterministic
classify_anthropic_error not_found_error = deterministic
classify_anthropic_error unprocessable_entity_error = deterministic
classify_anthropic_error internal_server_error = unavailable
classify_anthropic_error api_connection_error = transient
classify_anthropic_error (api_error status) = class_of_api_error status
classify_anthropic_error other_error = unknown

module _ {W X : Type 0} (sdk : AnthropicSdk W X) (options : AnthropicOptions W X) where
  abbrev pub anthropic_id : String
  anthropic_id = concat "anthropic:" options.model.id

  -- `options.client ?? new …`
  abbrev pub messages_client : MessagesClient W X
  messages_client = get_or options.client (sdk.connect)

  abbrev pub anthropic_max_output_tokens : ℕ
  anthropic_max_output_tokens = get_or options.default_max_output_tokens 16000

  abbrev thinks : Bool
  thinks = get_or options.enable_thinking options.model.capabilities.reasoning

  abbrev when_thinking : Value → Option Value
  when_thinking value = if thinks then some value else none

  -- `buildParams`
  unfoldable pub build_message_params : ModelRequest → Value
  build_message_params input =
      let prompt = system_text input.messages in
      object (
        object_of (
          ("model", some (text options.model.id))
          ∷ (
            "max_tokens",
            some (number_value (get_or input.max_output_tokens anthropic_max_output_tokens)),
          )
          ∷ (
            "messages",
            some (array (message_params (filter (λ m. not (is_system m)) input.messages))),
          )
          ∷ ("system", if prompt == "" then none else some (text prompt))
          ∷ ("thinking", when_thinking (object (object_of (("type", some (text "adaptive")) ∷ []))))
          ∷ (
            "output_config",
            when_thinking (
                object (
                  object_of (
                    ("effort", some (text (effort_for_tier (get_or input.reasoning_tier 5))))
                    ∷ []))),
          )
          ∷ []))

  abbrev pub message_result : MessageResponse → ℕ → ModelResult
  message_result response latency_ms = record {
    text = text_of_blocks response.content;
    usage = usage_of options.model response.usage latency_ms;
    finish_reason = get_or response.stop_reason "end_turn";
  }

  -- What the client throws leaves the last usage as it was. The clock does not run backwards.
  abbrev pub message_completed :
      ℕ → Result X MessageResponse × W → Metered W → Result X ModelResult × Metered W
  message_completed start (err x, w) s = (err x, record { world = w; last_usage = s.last_usage })
  message_completed start (ok response, w) s =
      let result = message_result response (sdk.now w - start) in
      (ok result, record { world = w; last_usage = some (last_usage_of result.usage) })

  unfoldable pub execute_messages : ModelRequest → Metered W → Result X ModelResult × Metered W
  execute_messages input s =
      message_completed (sdk.now s.world) (messages_client (build_message_params input) s.world) s

  -- `AnthropicModelAdapter`
  unfoldable pub anthropic_adapter : ModelAdapter (Metered W) X
  anthropic_adapter = record {
    id = anthropic_id;
    spec = record {
      id = anthropic_id;
      name = concat "Anthropic " options.model.display_name;
      version = "1";
      capabilities = "model.generate" ∷ concat "model:" options.model.id ∷ [];
    };
    estimate = λ input context s.
        (ok (estimate_request options.model anthropic_max_output_tokens input), s);
    execute = λ input context s. execute_messages input s;
    report_usage = λ s. s.last_usage;
    classify_error = λ x. classify_anthropic_error (sdk.error_class x);
  }
