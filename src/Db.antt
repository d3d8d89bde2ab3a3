-- ===== src/Db.antt =====
-- packages/db/src/schema/execution.ts: the rows of the tables `objectives`, `tasks` and `events`, and
-- the database that holds them; packages/db/src/events-mapper.ts. A column that may be null is optional, and times are numbers.
use donnav.Common.{ℕ, String, List, Option, none}
use donnav.Common.Json.{Value}
use donnav.Domain.Values.{AuthorityLevel, Scope}
use donnav.Domain.Events.{EventType, ActorType, EventEnvelope}
use donnav.Domain.Tasks.{ExecutionClass, TaskStatus}
use donnav.Domain.Objectives.{ObjectiveStatus, RiskLevel}

pub record ObjectiveRow : Type 0 where
  pub id : String
  pub organization_id : String
  pub scope : Scope
  pub scope_ref : Option String
  pub requester_id : String
  pub owner_id : String
  pub project_id : Option String
  pub requested_outcome : String
  pub definition_of_done : String
  pub status : ObjectiveStatus
  pub risk_level : RiskLevel
  pub priority : ℕ
  pub due_at : Option ℕ
  pub completion_summary : Option String
  pub created_at : ℕ
  pub updated_at : ℕ

-- The authority is the number of a level; the casts of the source change no value.
pub record TaskRow : Type 0 where
  pub id : String
  pub organization_id : String
  pub objective_id : String
  pub parent_task_id : Option String
  pub goal : String
  pub definition_of_done : String
  pub status : TaskStatus
  pub execution_class : Option ExecutionClass
  pub required_capabilities : List String
  pub required_authority : AuthorityLevel
  pub risk_level : RiskLevel
  pub approval_policy : Option Value
  pub idempotency_key : Option String
  pub retry_count : ℕ
  pub max_retries : ℕ
  pub lease_owner : Option String
  pub lease_expires_at : Option ℕ
  pub heartbeat_at : Option ℕ
  pub checkpoint : Option Value
  pub created_at : ℕ
  pub updated_at : ℕ

pub record EventRow : Type 0 where
  pub id : String
  pub type : EventType
  pub organization_id : String
  pub objective_id : Option String
  pub task_id : Option String
  pub actor_type : ActorType
  pub actor_id : String
  pub correlation_id : String
  pub causation_id : Option String
  pub payload_ref : Option String
  pub created_at : ℕ
  pub dispatched_at : Option ℕ

unfoldable pub event_envelope_to_row : EventEnvelope → EventRow
event_envelope_to_row event = record {
  id = event.id;
  type = event.type;
  organization_id = event.organization_id;
  objective_id = event.objective_id;
  task_id = event.task_id;
  actor_type = event.actor.type;
  actor_id = event.actor.id;
  correlation_id = event.correlation_id;
  causation_id = event.causation_id;
  payload_ref = event.payload_ref;
  created_at = event.created_at;
  dispatched_at = none;
}

-- The tables, and the state `J` of the job queue, which lies in the same database.
pub record Database (J : Type 0) : Type 0 where
  pub objectives : List ObjectiveRow
  pub tasks : List TaskRow
  pub events : List EventRow
  pub jobs : J
