-- ===== src/Control/Requests.antt =====
-- apps/control-plane/src/server.ts and actions.ts: what the routes get, ask for and reply.
use donnav.Common.{false, ℕ, String, Bool, List, [], ◌∷◌, Option, none, some, Result}
use donnav.Common.Json.{Value, undefined, text, array, Values, no_items, item}
use donnav.Domain.Values.{observe, prepare, Scope}
use donnav.Domain.Objectives.{RiskLevel, Objective}
use donnav.Policy.Types.{
  PrincipalContext, ActionDescriptor, ResourceDescriptor, PolicyReason, PolicyInput,
}
use donnav.Adapter.Contracts.{ModelRequest}
use donnav.Control.Objectives.{CreateObjectiveInput}
use donnav.Control.Dispatch.{DispatchInput, DispatchResult}

abbrev pub objective_create_action : ActionDescriptor
objective_create_action = record {
  name = "objective.create";
  authority_level = prepare;
  side_effecting = false;
  capability = none;
}

abbrev pub objective_read_action : ActionDescriptor
objective_read_action = record {
  name = "objective.read";
  authority_level = observe;
  side_effecting = false;
  capability = none;
}

abbrev pub task_dispatch_action : ActionDescriptor
task_dispatch_action = record {
  name = "task.dispatch";
  authority_level = prepare;
  side_effecting = false;
  capability = none;
}

-- `AuthOutcome` (auth/authenticate.ts)
pub data AuthOutcome : Type 0 where
  authenticated : PrincipalContext → AuthOutcome
  refused : ℕ → String → AuthOutcome

-- The replies of the routes, with their status codes where they vary.
pub data Reply : Type 0 where
  created : Objective → Reply
  found : Objective → Reply
  queued : DispatchResult → Reply
  failure : ℕ → String → Reply
  policy_denied : PolicyReason → String → Reply
  approval_required : PolicyReason → Reply

pub record CreateObjectiveBody : Type 0 where
  pub requested_outcome : Value
  pub definition_of_done : Value
  pub scope : Option Scope
  pub risk_level : Option RiskLevel
  pub project_id : Option String
  pub team_id : Option String

pub record DispatchTaskBody : Type 0 where
  pub goal : Value
  pub definition_of_done : Value
  pub required_capabilities : Value
  pub prefers_human : Option Bool
  pub needs_reasoning : Option Bool
  pub reasoning_tier : Option ℕ
  pub needs_tools : Option Bool
  pub needs_vision : Option Bool
  pub require_local : Option Bool
  pub min_context_tokens : Option ℕ
  pub model_request : Option ModelRequest

-- The services that the server is given, over their state. Each may throw; a read changes nothing.
pub record ServerDeps (S X : Type 0) : Type 0 where
  pub create_objective : CreateObjectiveInput → PrincipalContext → S → Result X Objective × S
  pub get_objective : String → String → S → Result X (Option Objective)
  pub dispatch : DispatchInput → PrincipalContext → S → Result X DispatchResult × S

-- `typeof value === 'string'`
abbrev pub as_text : Value → Option String
as_text (text s) = some s
as_text _ = none

abbrev pub cons_text : String → Option (List String) → Option (List String)
cons_text s none = none
cons_text s (some ss) = some (s ∷ ss)

abbrev pub all_texts : Values → Option (List String)
all_texts no_items = some []
all_texts (item (text s) rest) = cons_text s (all_texts rest)
all_texts (item _ rest) = none

unfoldable pub as_string_array : Value → Option (List String)
as_string_array undefined = some []
as_string_array (array values) = all_texts values
as_string_array _ = none

-- An input of the policy engine, with the default switches and ceilings.
abbrev pub asks : PrincipalContext → ActionDescriptor → ResourceDescriptor → PolicyInput
asks principal action resource = record {
  principal = principal;
  action = action;
  resource = resource;
  kill_switches = none;
  role_ceilings = none;
}
