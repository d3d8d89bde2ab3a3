-- ===== src/Worker/Casts.antt =====
-- The order that apps/worker/src/work-order-payload.ts returns: what was read of a payload, under
-- the casts of its nested objects.
use donnav.Common.{◌>>=◌, map, none}
use mathlib.Core.Option
use donnav.Common.Json.{Value}
use donnav.Adapter.Contracts.{ModelMessage, ModelRequest}
use donnav.Orchestrator.Order.{WorkOrder}
use donnav.Orchestrator.Json.{Nested}
use donnav.Worker.Payload.{ParsedMessage, ParsedRequest, ParsedOrder, Parsed, parse_work_order}
use donnav.Common.{ok}

module _ {I : Type 0} (nested : Nested I) where
  abbrev pub as_message : ParsedMessage → ModelMessage
  as_message m = record { role = nested.as_role m.role; content = m.content }

  abbrev pub as_request : ParsedRequest → ModelRequest
  as_request r = record {
    messages = map as_message r.messages;
    max_output_tokens = r.max_output_tokens;
    reasoning_tier = r.reasoning_tier;
  }

  -- Neither the actor nor the input of a capability is read.
  unfoldable pub as_order : ParsedOrder → WorkOrder I
  as_order p = record {
    organization_id = p.organization_id;
    task_id = p.task_id;
    correlation_id = p.correlation_id;
    actor = none;
    required_capabilities = p.required_capabilities;
    prefers_human = p.prefers_human;
    needs_reasoning = p.needs_reasoning;
    reasoning_tier = p.reasoning_tier;
    needs_tools = p.needs_tools;
    needs_vision = p.needs_vision;
    require_local = p.require_local;
    min_context_tokens = p.min_context_tokens;
    model_request = Option.map as_request p.model_request;
    capability_input = none;
    policy = Option.map nested.as_policy p.policy;
    budget = Option.map nested.as_budget p.budget;
  }

  unfoldable pub parse_order : Value → Parsed (WorkOrder I)
  parse_order payload = parse_work_order payload >>= λ p. ok (as_order p)
