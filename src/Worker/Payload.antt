-- ===== src/Worker/Payload.antt =====
-- apps/worker/src/work-order-payload.ts: `parseWorkOrder`.
use Prim.Native.String.{◌++◌}
use donnav.Common.{
  ◌>>=◌, ℕ, String, Bool, List, [], ◌∷◌, ◌+◌, ◌==◌, string_eq, Option, none, some, Result, ok, err,
  if◌then◌else◌,
}
use donnav.Common.Text.{decimal}
use donnav.Common.Json.{
  finite, Value, undefined, boolean, number, text, array, object, Values, no_items, item, Fields,
  lookup,
}

-- `InvalidWorkOrderError`: its message, after the prefix that all have.
abbrev pub Parsed {ℓ} : Type ℓ → Type ℓ
Parsed A = Result String A

abbrev invalid : {A : Type 0} → String → String → Parsed A
invalid key what = err ("\"" ++ key ++ "\" must be " ++ what)

abbrev pub string_value : String → Value → Parsed String
string_value key (text s) = if s == "" then invalid key "a non-empty string" else ok s
string_value key _ = invalid key "a non-empty string"

unfoldable pub require_string : Fields → String → Parsed String
require_string fields key = string_value key (lookup fields key)

abbrev optional_string_value : String → Value → Parsed (Option String)
optional_string_value key undefined = ok none
optional_string_value key (text s) = ok (some s)
optional_string_value key _ = invalid key "a string"

unfoldable pub optional_string : Fields → String → Parsed (Option String)
optional_string fields key = optional_string_value key (lookup fields key)

abbrev optional_boolean_value : String → Value → Parsed (Option Bool)
optional_boolean_value key undefined = ok none
optional_boolean_value key (boolean b) = ok (some b)
optional_boolean_value key _ = invalid key "a boolean"

unfoldable pub optional_boolean : Fields → String → Parsed (Option Bool)
optional_boolean fields key = optional_boolean_value key (lookup fields key)

abbrev optional_number_value : String → Value → Parsed (Option ℕ)
optional_number_value key undefined = ok none
optional_number_value key (number (finite n)) = ok (some n)
optional_number_value key _ = invalid key "a finite number"

unfoldable pub optional_number : Fields → String → Parsed (Option ℕ)
optional_number fields key = optional_number_value key (lookup fields key)

abbrev prepend : String → Parsed (List String) → Parsed (List String)
prepend s (ok ss) = ok (s ∷ ss)
prepend s (err e) = err e

-- `value.every((v) => typeof v === 'string')`, with the strings.
unfoldable pub strings : String → Values → Parsed (List String)
strings key no_items = ok []
strings key (item (text s) rest) = prepend s (strings key rest)
strings key (item _ rest) = invalid key "an array of strings"

abbrev pub string_array_value : String → Value → Parsed (List String)
string_array_value key undefined = ok []
string_array_value key (array values) = strings key values
string_array_value key _ = invalid key "an array of strings"

unfoldable pub string_array : Fields → String → Parsed (List String)
string_array fields key = string_array_value key (lookup fields key)

-- The cast of the source leaves the role any string.
pub record ParsedMessage : Type 0 where
  pub role : String
  pub content : String

pub record ParsedRequest : Type 0 where
  pub messages : List ParsedMessage
  pub max_output_tokens : Option ℕ
  pub reasoning_tier : Option ℕ

abbrev bad_message : {A : Type 0} → ℕ → Parsed A
bad_message i = err ("\"modelRequest.messages[" ++ decimal i ++ "]\" must have role and content")

abbrev pub message_of : ℕ → Value → Value → Parsed ParsedMessage
message_of i (text role) (text content) = ok (record { role = role; content = content })
message_of i _ _ = bad_message i

abbrev pub parse_message : ℕ → Value → Parsed ParsedMessage
parse_message i (object m) = message_of i (lookup m "role") (lookup m "content")
parse_message i _ = bad_message i

-- `messages.map((m, i) => …)`
unfoldable pub parse_messages : ℕ → Values → Parsed (List ParsedMessage)
parse_messages i no_items = ok []
parse_messages i (item m rest) =
    let parsed = parse_messages (i + 1) rest in
    do message ← parse_message i m; messages ← parsed; ok (message ∷ messages)

abbrev pub message_items : Value → Parsed (List ParsedMessage)
message_items (array (item m rest)) = parse_messages 0 (item m rest)
message_items _ = err "\"modelRequest.messages\" must be a non-empty array"

abbrev pub request_of : Value → Parsed ParsedRequest
request_of (object fields) = do
  messages ← message_items (lookup fields "messages")
  max_output_tokens ← optional_number fields "maxOutputTokens"
  reasoning_tier ← optional_number fields "reasoningTier"
  ok (record {
    messages = messages;
    max_output_tokens = max_output_tokens;
    reasoning_tier = reasoning_tier;
  })
request_of _ = err "\"modelRequest\" must be an object"

abbrev pub present : {A : Type 0} → Parsed A → Parsed (Option A)
present (ok a) = ok (some a)
present (err e) = err e

-- `payload['modelRequest'] !== undefined ? parseModelRequest(…) : undefined`
abbrev pub optional_request_value : Value → Parsed (Option ParsedRequest)
optional_request_value undefined = ok none
optional_request_value value = present (request_of value)

unfoldable pub optional_request : Fields → Parsed (Option ParsedRequest)
optional_request fields = optional_request_value (lookup fields "modelRequest")

-- The structured gates: an object passes through as it is.
abbrev optional_object_value : String → Value → Parsed (Option Fields)
optional_object_value key undefined = ok none
optional_object_value key (object fields) = ok (some fields)
optional_object_value key _ = invalid key "an object"

unfoldable pub optional_object : Fields → String → Parsed (Option Fields)
optional_object fields key = optional_object_value key (lookup fields key)

pub record ParsedOrder : Type 0 where
  pub organization_id : String
  pub required_capabilities : List String
  pub task_id : Option String
  pub correlation_id : Option String
  pub prefers_human : Option Bool
  pub needs_reasoning : Option Bool
  pub reasoning_tier : Option ℕ
  pub needs_tools : Option Bool
  pub needs_vision : Option Bool
  pub require_local : Option Bool
  pub min_context_tokens : Option ℕ
  pub model_request : Option ParsedRequest
  pub policy : Option Fields
  pub budget : Option Fields

unfoldable pub parse_fields : Fields → Parsed ParsedOrder
parse_fields payload = do
  organization_id ← require_string payload "organizationId"
  required_capabilities ← string_array payload "requiredCapabilities"
  task_id ← optional_string payload "taskId"
  correlation_id ← optional_string payload "correlationId"
  prefers_human ← optional_boolean payload "prefersHuman"
  needs_reasoning ← optional_boolean payload "needsReasoning"
  reasoning_tier ← optional_number payload "reasoningTier"
  needs_tools ← optional_boolean payload "needsTools"
  needs_vision ← optional_boolean payload "needsVision"
  require_local ← optional_boolean payload "requireLocal"
  min_context_tokens ← optional_number payload "minContextTokens"
  model_request ← optional_request payload
  policy ← optional_object payload "policy"
  budget ← optional_object payload "budget"
  ok (record {
    organization_id = organization_id;
    required_capabilities = required_capabilities;
    task_id = task_id;
    correlation_id = correlation_id;
    prefers_human = prefers_human;
    needs_reasoning = needs_reasoning;
    reasoning_tier = reasoning_tier;
    needs_tools = needs_tools;
    needs_vision = needs_vision;
    require_local = require_local;
    min_context_tokens = min_context_tokens;
    model_request = model_request;
    policy = policy;
    budget = budget;
  })

unfoldable pub parse_work_order : Value → Parsed ParsedOrder
unfolding parse_fields
parse_work_order (object payload) = parse_fields payload
parse_work_order _ = err "payload must be an object"
