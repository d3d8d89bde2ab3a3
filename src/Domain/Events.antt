-- ===== src/Domain/Events.antt =====
-- packages/core-domain/src/event.ts: the event types and the envelope of an event.
use donnav.Common.{
  ℕ, String, Bool, true, List, [], ◌∷◌, ◌≡◌, ◌↔◌, arith, includes, Option, map, In, string_eq,
  named_iff, Eq, nat_beq,
}

-- `EVENT_TYPES`
pub data EventType : Type 0 where
  objective_created task_created task_planned task_assigned worker_started : EventType
  tool_called artifact_created approval_requested approval_decided : EventType
  task_blocked task_retried task_completed task_failed memory_updated : EventType
  node_health_changed system_alert : EventType

abbrev pub event_types : List EventType
event_types =
    objective_created ∷ task_created ∷ task_planned ∷ task_assigned ∷ worker_started ∷ tool_called
    ∷ artifact_created ∷ approval_requested ∷ approval_decided ∷ task_blocked ∷ task_retried
    ∷ task_completed ∷ task_failed ∷ memory_updated ∷ node_health_changed ∷ system_alert ∷ []

abbrev pub event_name : EventType → String
event_name objective_created = "objective.created"
event_name task_created = "task.created"
event_name task_planned = "task.planned"
event_name task_assigned = "task.assigned"
event_name worker_started = "worker.started"
event_name tool_called = "tool.called"
event_name artifact_created = "artifact.created"
event_name approval_requested = "approval.requested"
event_name approval_decided = "approval.decided"
event_name task_blocked = "task.blocked"
event_name task_retried = "task.retried"
event_name task_completed = "task.completed"
event_name task_failed = "task.failed"
event_name memory_updated = "memory.updated"
event_name node_health_changed = "node.health_changed"
event_name system_alert = "system.alert"

-- The place of a type in `EVENT_TYPES`, for `===` on types.
abbrev pub event_index : EventType → ℕ
event_index objective_created = 0
event_index task_created = 1
event_index task_planned = 2
event_index task_assigned = 3
event_index worker_started = 4
event_index tool_called = 5
event_index artifact_created = 6
event_index approval_requested = 7
event_index approval_decided = 8
event_index task_blocked = 9
event_index task_retried = 10
event_index task_completed = 11
event_index task_failed = 12
event_index memory_updated = 13
event_index node_health_changed = 14
event_index system_alert = 15

pub event_beq_iff : (a b : EventType) → (nat_beq (event_index a) (event_index b) ≡ true) ↔ (a ≡ b)
event_beq_iff a b = ground arith

instance abbrev pub event_eq : Eq EventType
event_eq = record {
  same = λ a b. nat_beq (event_index a) (event_index b);
  same_iff = event_beq_iff;
}

pub data ActorType : Type 0 where
  human orchestrator adapter checker : ActorType

pub record Actor : Type 0 where
  pub type : ActorType
  pub id : String

-- `createdAt` is a number of milliseconds.
pub record EventEnvelope : Type 0 where
  pub id : String
  pub type : EventType
  pub organization_id : String
  pub objective_id : Option String
  pub task_id : Option String
  pub actor : Actor
  pub correlation_id : String
  pub causation_id : Option String
  pub payload_ref : Option String
  pub created_at : ℕ

unfoldable pub is_event_type : String → Bool
is_event_type value = includes (map event_name event_types) value

event-listed : (t : EventType) → In t event_types
event-listed t = ground arith

-- A string passes the test for event types exactly when it is the name of an event type.
pub is_event_type_iff :
    (s : String) → (is_event_type s ≡ true) ↔ ((t : EventType) × (s ≡ event_name t))
unfolding is_event_type
is_event_type_iff s = named_iff event_name event_types event-listed s
