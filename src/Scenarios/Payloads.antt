-- ===== src/Scenarios/Payloads.antt =====
-- A payload of one order (apps/worker/src/work-order-payload.ts).
use donnav.Common.{true, [], ◌∷◌, ◌≡◌, ◌↔◌, none, some, ok}
use donnav.Common.Json.{boolean, text, array, object, no_items, item, Fields, no_fields, field}
use donnav.Worker.Payload.{ParsedOrder, parse_work_order}
use donnav.Worker.ParsedOrders.{HoldsOrder, parse_work_order_iff}

abbrev payload : Fields
payload = field "organizationId" (text "acme") (
    field "requiredCapabilities" (array (item (text "send_mail") no_items))
      (field "needsReasoning" (boolean true) no_fields))

abbrev order : ParsedOrder
order = record {
  organization_id = "acme";
  required_capabilities = "send_mail" ∷ [];
  task_id = none;
  correlation_id = none;
  prefers_human = none;
  needs_reasoning = some true;
  reasoning_tier = none;
  needs_tools = none;
  needs_vision = none;
  require_local = none;
  min_context_tokens = none;
  model_request = none;
  policy = none;
  budget = none;
}

parse_work_order_iff_example :
    (parse_work_order (object payload) ≡ ok order) ↔ HoldsOrder (object payload) order
parse_work_order_iff_example = parse_work_order_iff (object payload) order
