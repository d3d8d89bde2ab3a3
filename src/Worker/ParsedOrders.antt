-- ===== src/Worker/ParsedOrders.antt =====
-- Which payloads apps/worker/src/work-order-payload.ts accepts, and as which orders.
use donnav.Common.{>>=-eq_ok, ◌≡◌, ◌≢◌, ◌↔◌, arith, refl, subst, ok}
use donnav.Common.Json.{Value, text, object, Fields, field, lookup}
use donnav.Worker.Payload.{
  Parsed, require_string, optional_string, optional_boolean, optional_number, string_array,
  optional_request, optional_object, ParsedOrder, parse_fields, parse_work_order,
}
use donnav.Worker.PayloadLaws.{
  IsString, IsBoolean, IsNumber, IsObject, AreStrings, IsRequest, require_string_iff,
  optional_string_iff, optional_boolean_iff, optional_number_iff, optional_object_iff,
  string_array_iff, optional_request_iff,
}

-- A payload that holds the order: each property that is read has the type of its field, and those
-- that may be absent are absent exactly where the field is.
pub record Holds (p : Fields) (o : ParsedOrder) : Type 0 where
  pub organization_id : lookup p "organizationId" ≡ text o.organization_id
  pub organized : o.organization_id ≢ ""
  pub required_capabilities : AreStrings (lookup p "requiredCapabilities") o.required_capabilities
  pub task_id : IsString (lookup p "taskId") o.task_id
  pub correlation_id : IsString (lookup p "correlationId") o.correlation_id
  pub prefers_human : IsBoolean (lookup p "prefersHuman") o.prefers_human
  pub needs_reasoning : IsBoolean (lookup p "needsReasoning") o.needs_reasoning
  pub reasoning_tier : IsNumber (lookup p "reasoningTier") o.reasoning_tier
  pub needs_tools : IsBoolean (lookup p "needsTools") o.needs_tools
  pub needs_vision : IsBoolean (lookup p "needsVision") o.needs_vision
  pub require_local : IsBoolean (lookup p "requireLocal") o.require_local
  pub min_context_tokens : IsNumber (lookup p "minContextTokens") o.min_context_tokens
  pub model_request : IsRequest (lookup p "modelRequest") o.model_request
  pub policy : IsObject (lookup p "policy") o.policy
  pub budget : IsObject (lookup p "budget") o.budget

-- Only an object holds an order.
abbrev pub HoldsOrder : Value → ParsedOrder → Type 0
HoldsOrder (object p) o = Holds p o
HoldsOrder _ o = ⊥

abbrev accepted : ParsedOrder → Parsed ParsedOrder
accepted o = ok o

ok_injective : (a b : ParsedOrder) → accepted a ≡ accepted b → a ≡ b
ok_injective a b h = cc

parse_fields_iff : (p : Fields) (o : ParsedOrder) → (parse_fields p ≡ ok o) ↔ Holds p o
unfolding parse_fields
parse_fields_iff p o = (
  λ h.
      let (a1, e1, h1) = >>=-eq_ok (require_string p "organizationId") _ h in
      let (a2, e2, h2) = >>=-eq_ok (string_array p "requiredCapabilities") _ h1 in
      let (a3, e3, h3) = >>=-eq_ok (optional_string p "taskId") _ h2 in
      let (a4, e4, h4) = >>=-eq_ok (optional_string p "correlationId") _ h3 in
      let (a5, e5, h5) = >>=-eq_ok (optional_boolean p "prefersHuman") _ h4 in
      let (a6, e6, h6) = >>=-eq_ok (optional_boolean p "needsReasoning") _ h5 in
      let (a7, e7, h7) = >>=-eq_ok (optional_number p "reasoningTier") _ h6 in
      let (a8, e8, h8) = >>=-eq_ok (optional_boolean p "needsTools") _ h7 in
      let (a9, e9, h9) = >>=-eq_ok (optional_boolean p "needsVision") _ h8 in
      let (a10, e10, h10) = >>=-eq_ok (optional_boolean p "requireLocal") _ h9 in
      let (a11, e11, h11) = >>=-eq_ok (optional_number p "minContextTokens") _ h10 in
      let (a12, e12, h12) = >>=-eq_ok (optional_request p) _ h11 in
      let (a13, e13, h13) = >>=-eq_ok (optional_object p "policy") _ h12 in
      let (a14, e14, h14) = >>=-eq_ok (optional_object p "budget") _ h13 in
      let same = ok_injective _ o h14 in
      subst (Holds p) same (record {
        organization_id = ((require_string_iff p "organizationId" a1).0 e1).0;
        organized = ((require_string_iff p "organizationId" a1).0 e1).1;
        required_capabilities = (string_array_iff p "requiredCapabilities" a2).0 e2;
        task_id = (optional_string_iff p "taskId" a3).0 e3;
        correlation_id = (optional_string_iff p "correlationId" a4).0 e4;
        prefers_human = (optional_boolean_iff p "prefersHuman" a5).0 e5;
        needs_reasoning = (optional_boolean_iff p "needsReasoning" a6).0 e6;
        reasoning_tier = (optional_number_iff p "reasoningTier" a7).0 e7;
        needs_tools = (optional_boolean_iff p "needsTools" a8).0 e8;
        needs_vision = (optional_boolean_iff p "needsVision" a9).0 e9;
        require_local = (optional_boolean_iff p "requireLocal" a10).0 e10;
        min_context_tokens = (optional_number_iff p "minContextTokens" a11).0 e11;
        model_request = (optional_request_iff p a12).0 e12;
        policy = (optional_object_iff p "policy" a13).0 e13;
        budget = (optional_object_iff p "budget" a14).0 e14;
      }),
  λ h.
      rw
        (
          (require_string_iff p "organizationId" o.organization_id).1
              (h.organization_id, h.organized),
          (string_array_iff p "requiredCapabilities" o.required_capabilities).1
              h.required_capabilities,
          (optional_string_iff p "taskId" o.task_id).1 h.task_id,
          (optional_string_iff p "correlationId" o.correlation_id).1 h.correlation_id,
          (optional_boolean_iff p "prefersHuman" o.prefers_human).1 h.prefers_human,
          (optional_boolean_iff p "needsReasoning" o.needs_reasoning).1 h.needs_reasoning,
          (optional_number_iff p "reasoningTier" o.reasoning_tier).1 h.reasoning_tier,
          (optional_boolean_iff p "needsTools" o.needs_tools).1 h.needs_tools,
          (optional_boolean_iff p "needsVision" o.needs_vision).1 h.needs_vision,
          (optional_boolean_iff p "requireLocal" o.require_local).1 h.require_local,
          (optional_number_iff p "minContextTokens" o.min_context_tokens).1 h.min_context_tokens,
          (optional_request_iff p o.model_request).1 h.model_request,
          (optional_object_iff p "policy" o.policy).1 h.policy,
          (optional_object_iff p "budget" o.budget).1 h.budget,
        )
        refl,
)

-- A payload is parsed as an order exactly when it is an object that holds the order; in particular
-- no other value, and no object with a property of another type among those that are read, is
-- accepted.
pub parse_work_order_iff :
    (v : Value) (o : ParsedOrder) → (parse_work_order v ≡ ok o) ↔ HoldsOrder v o
unfolding parse_work_order
parse_work_order_iff (object p) o = parse_fields_iff p o
parse_work_order_iff _ o = ground arith

-- The input of a capability and the actor are never read: a payload with them is parsed as the
-- payload without them.
pub parse_work_order-drops :
    (input actor : Value) (p : Fields)
    → parse_work_order (object (field "capabilityInput" input (field "actor" actor p)))
      ≡ parse_work_order (object p)
unfolding parse_work_order parse_fields lookup require_string optional_string optional_boolean
    optional_number string_array optional_request optional_object
parse_work_order-drops input actor p = refl
