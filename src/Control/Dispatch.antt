-- ===== src/Control/Dispatch.antt =====
-- apps/control-plane/src/services/task-dispatcher.ts: a task with its event and its job, in one
-- transaction.
use donnav.Common.{String, Option, none, some, get_or, Result, ok, ◌>>=◌}
use donnav.Domain.Values.{AuthorityLevel, prepare}
use donnav.Domain.Events.{task_created, Actor, ActorType, EventEnvelope}
use donnav.Domain.Tasks.{pending, Task}
use donnav.Policy.Types.{ActorKind, PrincipalContext}
use donnav.Db.{Database, event_envelope_to_row}
use donnav.Events.Create.{Platform, CreateEventInput, create_event}
use donnav.Orchestrator.Order.{WorkOrder}
use donnav.Orchestrator.Json.{Nested, order_value}
use donnav.Control.Mappers.{WorkOrderHints, task_to_row, build_work_order}
use donnav.Control.Postgres.{Postgres, insert_task, insert_event, transaction}
use donnav.Control.Queue.{execute_work_order_task}

pub record DispatchInput : Type 0 where
  pub hints : WorkOrderHints
  pub objective_id : String
  pub goal : String
  pub definition_of_done : String
  pub required_authority : Option AuthorityLevel

pub record DispatchResult : Type 0 where
  pub task : Task
  pub job_id : String

-- The task, of the identifier that `randomUUID` gave.
abbrev pub new_task : String → DispatchInput → Task
new_task id input = record {
  id = id;
  objective_id = input.objective_id;
  parent_task_id = none;
  goal = input.goal;
  definition_of_done = input.definition_of_done;
  status = pending;
  execution_class = none;
  required_authority = get_or input.required_authority prepare;
  idempotency_key = none;
  retry_count = 0;
  max_retries = 3;
}

abbrev actor_type : ActorKind → ActorType
actor_type ActorKind.human = ActorType.human
actor_type ActorKind.agent = ActorType.orchestrator

-- `{ type: principal.actorKind === 'human' ? 'human' : 'orchestrator', id: principal.userId }`
abbrev pub actor_of : PrincipalContext → Actor
actor_of principal = record { type = actor_type principal.actor_kind; id = principal.user_id }

-- The input of the event `task.created`.
abbrev pub created_event : Task → PrincipalContext → CreateEventInput
created_event task principal = record {
  type = task_created;
  organization_id = principal.organization_id;
  actor = actor_of principal;
  objective_id = some task.objective_id;
  task_id = some task.id;
  correlation_id = none;
  causation_id = none;
  payload_ref = none;
  now = none;
}

module _ {W J X I : Type 0} (platform : Platform W) (nested : Nested I)
    (server : Postgres J X) where
  abbrev pub order_of : Task → DispatchInput → PrincipalContext → WorkOrder I
  order_of task input principal = build_work_order task principal.organization_id input.hints

  -- The job of the order, with the task as its key; an absent row gives an empty job id.
  abbrev pub insert_job : Task → WorkOrder I → Database J → Result X (DispatchResult × Database J)
  insert_job task order db =
      server.add_job execute_work_order_task (order_value nested order) task.id db.jobs >>= λ added.
      ok (record { task = task; job_id = get_or added.0 "" }, record db { jobs = added.1 })

  -- The body of the transaction.
  unfoldable pub write_dispatch :
      Task
      → DispatchInput
      → PrincipalContext
      → EventEnvelope
      → W
      → Database J
      → Result X (DispatchResult × Database J)
  write_dispatch task input principal event w db = do
    with_task ←
        insert_task server (platform.now w)
          (task_to_row task principal.organization_id input.hints.required_capabilities) db
    with_event ← insert_event server (event_envelope_to_row event) with_task
    insert_job task (order_of task input principal) with_event

  unfoldable pub dispatch :
      DispatchInput → PrincipalContext → Database J → W → Result X DispatchResult × Database J × W
  dispatch input principal db w =
      let (id, w₁) = platform.random_uuid w in
      let task = new_task id input in
      let (event, w₂) = create_event platform (created_event task principal) w₁ in
      let (result, db') = transaction (write_dispatch task input principal event w₂ db) db in
      (result, db', w₂)
