-- ===== src/Control/Mappers.antt =====
-- apps/control-plane/src/db/mappers.ts: objectives and tasks as rows, and the work order of a task.
-- What an insert leaves out gets the default of its column (packages/db/src/schema/execution.ts).
use donnav.Common.{ℕ, String, Bool, List, Option, none, some}
use donnav.Domain.Values.{AuthorityLevel, Scope, team}
use donnav.Domain.Objectives.{ObjectiveStatus, RiskLevel, low, Objective}
use donnav.Domain.Tasks.{ExecutionClass, TaskStatus, Task}
use donnav.Db.{ObjectiveRow, TaskRow}
use donnav.Adapter.Contracts.{ModelRequest}
use donnav.Orchestrator.Order.{WorkOrder}

pub record ObjectiveInsert : Type 0 where
  pub id : String
  pub organization_id : String
  pub scope : Scope
  pub requester_id : String
  pub owner_id : String
  pub requested_outcome : String
  pub definition_of_done : String
  pub status : ObjectiveStatus
  pub risk_level : RiskLevel
  pub project_id : Option String
  pub scope_ref : Option String
  pub due_at : Option ℕ
  pub completion_summary : Option String

unfoldable pub objective_to_row : Objective → String → ObjectiveInsert
objective_to_row objective organization_id = record {
  id = objective.id;
  organization_id = organization_id;
  scope = objective.scope;
  requester_id = objective.requester_id;
  owner_id = objective.owner_id;
  requested_outcome = objective.requested_outcome;
  definition_of_done = objective.definition_of_done;
  status = objective.status;
  risk_level = objective.risk_level;
  project_id = objective.project_id;
  scope_ref = objective.team_id;
  due_at = objective.due_at;
  completion_summary = objective.completion_summary;
}

-- The row that is inserted at a time.
unfoldable pub inserted_objective : ℕ → ObjectiveInsert → ObjectiveRow
inserted_objective now insert = record {
  id = insert.id;
  organization_id = insert.organization_id;
  scope = insert.scope;
  scope_ref = insert.scope_ref;
  requester_id = insert.requester_id;
  owner_id = insert.owner_id;
  project_id = insert.project_id;
  requested_outcome = insert.requested_outcome;
  definition_of_done = insert.definition_of_done;
  status = insert.status;
  risk_level = insert.risk_level;
  priority = 0;
  due_at = insert.due_at;
  completion_summary = insert.completion_summary;
  created_at = now;
  updated_at = now;
}

-- `row.scope === 'TEAM' && row.scopeRef !== null ? { teamId: row.scopeRef } : {}`
abbrev pub team_of : Scope → Option String → Option String
team_of team scope_ref = scope_ref
team_of _ scope_ref = none

unfoldable pub row_to_objective : ObjectiveRow → Objective
row_to_objective row = record {
  id = row.id;
  scope = row.scope;
  requester_id = row.requester_id;
  owner_id = row.owner_id;
  requested_outcome = row.requested_outcome;
  definition_of_done = row.definition_of_done;
  status = row.status;
  risk_level = row.risk_level;
  project_id = row.project_id;
  team_id = team_of row.scope row.scope_ref;
  due_at = row.due_at;
  completion_summary = row.completion_summary;
}

pub record TaskInsert : Type 0 where
  pub id : String
  pub organization_id : String
  pub objective_id : String
  pub goal : String
  pub definition_of_done : String
  pub status : TaskStatus
  pub required_authority : AuthorityLevel
  pub required_capabilities : List String
  pub retry_count : ℕ
  pub max_retries : ℕ
  pub execution_class : Option ExecutionClass
  pub idempotency_key : Option String

unfoldable pub task_to_row : Task → String → List String → TaskInsert
task_to_row task organization_id required_capabilities = record {
  id = task.id;
  organization_id = organization_id;
  objective_id = task.objective_id;
  goal = task.goal;
  definition_of_done = task.definition_of_done;
  status = task.status;
  required_authority = task.required_authority;
  required_capabilities = required_capabilities;
  retry_count = task.retry_count;
  max_retries = task.max_retries;
  execution_class = task.execution_class;
  idempotency_key = task.idempotency_key;
}

-- The row that is inserted at a time.
unfoldable pub inserted_task : ℕ → TaskInsert → TaskRow
inserted_task now insert = record {
  id = insert.id;
  organization_id = insert.organization_id;
  objective_id = insert.objective_id;
  parent_task_id = none;
  goal = insert.goal;
  definition_of_done = insert.definition_of_done;
  status = insert.status;
  execution_class = insert.execution_class;
  required_capabilities = insert.required_capabilities;
  required_authority = insert.required_authority;
  risk_level = low;
  approval_policy = none;
  idempotency_key = insert.idempotency_key;
  retry_count = insert.retry_count;
  max_retries = insert.max_retries;
  lease_owner = none;
  lease_expires_at = none;
  heartbeat_at = none;
  checkpoint = none;
  created_at = now;
  updated_at = now;
}

unfoldable pub row_to_task : TaskRow → Task
row_to_task row = record {
  id = row.id;
  objective_id = row.objective_id;
  parent_task_id = row.parent_task_id;
  goal = row.goal;
  definition_of_done = row.definition_of_done;
  status = row.status;
  execution_class = row.execution_class;
  required_authority = row.required_authority;
  idempotency_key = none;
  retry_count = row.retry_count;
  max_retries = row.max_retries;
}

pub record WorkOrderHints : Type 0 where
  pub required_capabilities : List String
  pub prefers_human : Option Bool
  pub needs_reasoning : Option Bool
  pub reasoning_tier : Option ℕ
  pub needs_tools : Option Bool
  pub needs_vision : Option Bool
  pub require_local : Option Bool
  pub min_context_tokens : Option ℕ
  pub model_request : Option ModelRequest

-- The fields that the source does not set are absent.
unfoldable pub build_work_order : {I : Type 0} → Task → String → WorkOrderHints → WorkOrder I
build_work_order task organization_id hints = record {
  organization_id = organization_id;
  task_id = some task.id;
  correlation_id = none;
  actor = none;
  required_capabilities = hints.required_capabilities;
  prefers_human = hints.prefers_human;
  needs_reasoning = hints.needs_reasoning;
  reasoning_tier = hints.reasoning_tier;
  needs_tools = hints.needs_tools;
  needs_vision = hints.needs_vision;
  require_local = hints.require_local;
  min_context_tokens = hints.min_context_tokens;
  model_request = hints.model_request;
  capability_input = none;
  policy = none;
  budget = none;
}
