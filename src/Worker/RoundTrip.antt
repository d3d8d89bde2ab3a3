-- ===== src/Worker/RoundTrip.antt =====
-- An order on its way through the job queue: apps/worker/src/work-order-payload.ts reads what
-- `JSON.stringify` wrote.
use donnav.Common.{
  ℕ, String, Bool, List, [], ◌∷◌, ◌≡◌, ◌≢◌, refl, sym, ap, inr, map, Option, none, some, ok, subst,
}
use mathlib.Core.Option
use donnav.Common.Json.{Value, text, boolean, array, object, Fields, lookup}
use donnav.Common.Objects.{object_of, property_of, lookup-object_of, or_undefined}
use donnav.Adapter.Contracts.{ModelMessage, ModelRequest}
use donnav.Orchestrator.Order.{WorkOrder}
use donnav.Orchestrator.Json.{
  Nested, model_role_name, number_value, message_value, message_values, request_value,
  request_properties, order_properties, order_value,
}
use donnav.Worker.Payload.{ParsedMessage, ParsedRequest, ParsedOrder}
use donnav.Worker.PayloadLaws.{
  IsString, IsBoolean, IsNumber, IsObject, IsRequest, IsMessage, AreMessages, HasMessages,
  HasRequest,
}
use donnav.Worker.ParsedOrders.{HoldsOrder, parse_work_order_iff}
use donnav.Worker.Casts.{as_message, as_request, as_order, parse_order}

-- What is read of an order that was written.
abbrev parsed_message : ModelMessage → ParsedMessage
parsed_message m = record { role = model_role_name m.role; content = m.content }

abbrev parsed_request : ModelRequest → ParsedRequest
parsed_request r = record {
  messages = map parsed_message r.messages;
  max_output_tokens = r.max_output_tokens;
  reasoning_tier = r.reasoning_tier;
}

module _ (v : Value) where
  is_string : (o : Option String) → v ≡ or_undefined (Option.map text o) → IsString v o
  is_string none e = e
  is_string (some s) e = e

  is_boolean : (o : Option Bool) → v ≡ or_undefined (Option.map boolean o) → IsBoolean v o
  is_boolean none e = e
  is_boolean (some b) e = e

  is_number : (o : Option ℕ) → v ≡ or_undefined (Option.map number_value o) → IsNumber v o
  is_number none e = e
  is_number (some n) e = e

  is_object :
      {A : Type 0} (fields : A → Fields) (o : Option A)
      → v ≡ or_undefined (Option.map (λ a. object (fields a)) o)
      → IsObject v (Option.map fields o)
  is_object fields none e = e
  is_object fields (some a) e = e

is_message : (m : ModelMessage) → IsMessage (message_value m) (parsed_message m)
unfolding object_of lookup
is_message m = (refl, refl)

are_messages : (ms : List ModelMessage) → AreMessages (message_values ms) (map parsed_message ms)
unfolding message_values
are_messages [] = tt
are_messages (m ∷ ms) = (is_message m, are_messages ms)

-- A request is sent with at least one message.
abbrev pub HasSome : Option ModelRequest → Type 0
HasSome none = Unit
HasSome (some r) = r.messages ≢ []

has_messages :
    (v : Value) (ms : List ModelMessage)
    → ms ≢ []
    → v ≡ array (message_values ms)
    → HasMessages v (map parsed_message ms)
unfolding message_values
has_messages v [] h e = absurd (h refl)
has_messages v (m ∷ ms) h e =
    subst (λ u. HasMessages u (map parsed_message (m ∷ ms))) (sym e) (are_messages (m ∷ ms))

request_lookup :
    (r : ModelRequest) (key : String)
    → lookup (object_of (request_properties r)) key ≡ property_of (request_properties r) key
request_lookup r key = lookup-object_of (request_properties r) key refl

has_request : (r : ModelRequest) → r.messages ≢ [] → HasRequest (request_value r) (parsed_request r)
unfolding request_value
has_request r h = (
  has_messages _ r.messages h (request_lookup r "messages"),
  is_number _ r.max_output_tokens (request_lookup r "maxOutputTokens"),
  is_number _ r.reasoning_tier (request_lookup r "reasoningTier"),
)

is_request :
    (v : Value) (o : Option ModelRequest)
    → HasSome o
    → v ≡ or_undefined (Option.map request_value o)
    → IsRequest v (Option.map parsed_request o)
is_request v none h e = e
is_request v (some r) h e = subst (λ u. HasRequest u (parsed_request r)) (sym e) (has_request r h)

module _ {I : Type 0} (nested : Nested I) where
  abbrev parsed_order : WorkOrder I → ParsedOrder
  parsed_order o = record {
    organization_id = o.organization_id;
    required_capabilities = o.required_capabilities;
    task_id = o.task_id;
    correlation_id = o.correlation_id;
    prefers_human = o.prefers_human;
    needs_reasoning = o.needs_reasoning;
    reasoning_tier = o.reasoning_tier;
    needs_tools = o.needs_tools;
    needs_vision = o.needs_vision;
    require_local = o.require_local;
    min_context_tokens = o.min_context_tokens;
    model_request = Option.map parsed_request o.model_request;
    policy = Option.map nested.policy_fields o.policy;
    budget = Option.map nested.budget_fields o.budget;
  }

  order_lookup :
      (o : WorkOrder I) (key : String)
      → lookup (object_of (order_properties nested o)) key
        ≡ property_of (order_properties nested o) key
  order_lookup o key = lookup-object_of (order_properties nested o) key refl

  order_value-HoldsOrder :
      (o : WorkOrder I)
      → o.organization_id ≢ ""
      → HasSome o.model_request
      → HoldsOrder (order_value nested o) (parsed_order o)
  unfolding order_value
  order_value-HoldsOrder o h m = record {
    organization_id = order_lookup o "organizationId";
    organized = h;
    required_capabilities = inr (order_lookup o "requiredCapabilities");
    task_id = is_string _ o.task_id (order_lookup o "taskId");
    correlation_id = is_string _ o.correlation_id (order_lookup o "correlationId");
    prefers_human = is_boolean _ o.prefers_human (order_lookup o "prefersHuman");
    needs_reasoning = is_boolean _ o.needs_reasoning (order_lookup o "needsReasoning");
    reasoning_tier = is_number _ o.reasoning_tier (order_lookup o "reasoningTier");
    needs_tools = is_boolean _ o.needs_tools (order_lookup o "needsTools");
    needs_vision = is_boolean _ o.needs_vision (order_lookup o "needsVision");
    require_local = is_boolean _ o.require_local (order_lookup o "requireLocal");
    min_context_tokens = is_number _ o.min_context_tokens (order_lookup o "minContextTokens");
    model_request = is_request _ o.model_request m (order_lookup o "modelRequest");
    policy = is_object _ nested.policy_fields o.policy (order_lookup o "policy");
    budget = is_object _ nested.budget_fields o.budget (order_lookup o "budget");
  }

  role_back : (ms : List ModelMessage) → map (as_message nested) (map parsed_message ms) ≡ ms
  role_back [] = refl
  role_back (m ∷ ms) = rw (nested.as_role-model_role_name m.role, role_back ms) refl

  request_back :
      (o : Option ModelRequest) → Option.map (as_request nested) (Option.map parsed_request o) ≡ o
  request_back none = refl
  request_back (some r) = rw (role_back r.messages) refl

  map_back :
      {A B : Type 0} (f : A → B) (g : B → A)
      → ((a : A) → g (f a) ≡ a)
      → (o : Option A) → Option.map g (Option.map f o) ≡ o
  map_back f g h none = refl
  map_back f g h (some a) = ap some (h a)

  -- Whatever order is put into the job queue, the worker reads the same order again, but for its
  -- actor and the input of its capability, which it never reads; where the organization has a name
  -- and a request, if there is one, has a message.
  pub parse_order-order_value :
      (o : WorkOrder I)
      → o.organization_id ≢ ""
      → HasSome o.model_request
      → parse_order nested (order_value nested o)
        ≡ ok (record o { actor = none; capability_input = none })
  unfolding parse_order as_order
  parse_order-order_value o h m =
      rw
        (
          (parse_work_order_iff (order_value nested o) (parsed_order o)).1
              (order_value-HoldsOrder o h m),
          request_back o.model_request,
          map_back nested.policy_fields nested.as_policy nested.as_policy-policy_fields o.policy,
          map_back nested.budget_fields nested.as_budget nested.as_budget-budget_fields o.budget,
        )
        refl
