-- ===== src/Control/Tasks.antt =====
-- apps/control-plane/src/services/task-service.ts, and the dispatcher in memory of
-- apps/control-plane/src/services/task-dispatcher.ts, over a bus and a work queue.
use donnav.Common.{String, Option, none, get_or, Result, ok, err, string_eq}
use donnav.Common.Dict.{Dict, get, put}
use donnav.Domain.Values.{AuthorityLevel, prepare}
use donnav.Domain.Events.{EventEnvelope}
use donnav.Domain.Tasks.{pending, Task}
use donnav.Policy.Types.{PrincipalContext}
use donnav.Events.Create.{Platform, create_event}
use donnav.Orchestrator.Order.{WorkOrder}
use donnav.Control.Mappers.{build_work_order}
use donnav.Control.Dispatch.{DispatchInput, DispatchResult, created_event}

pub record CreateTaskInput : Type 0 where
  pub objective_id : String
  pub goal : String
  pub definition_of_done : String
  pub required_authority : Option AuthorityLevel

-- `InMemoryTaskService`
abbrev pub TaskStore : Type 0
TaskStore = Dict String Task

abbrev task_of_input : String → CreateTaskInput → Task
task_of_input id input = record {
  id = id;
  objective_id = input.objective_id;
  parent_task_id = none;
  goal = input.goal;
  definition_of_done = input.definition_of_done;
  status = pending;
  execution_class = none;
  required_authority = get_or input.required_authority prepare;
  idempotency_key = none;
  retry_count = 0;
  max_retries = 3;
}

-- `InMemoryTaskService.get`
abbrev pub get_task : String → TaskStore → Option Task
get_task id store = get id store

abbrev task_input : DispatchInput → CreateTaskInput
task_input input = record {
  objective_id = input.objective_id;
  goal = input.goal;
  definition_of_done = input.definition_of_done;
  required_authority = input.required_authority;
}

module _ {W X : Type 0} (platform : Platform W)
    (publish : EventEnvelope → W → Result X (Unit {0}) × W) where
  abbrev after_publish : Result X (Unit {0}) → Task → Result X Task
  after_publish (ok u) task = ok task
  after_publish (err x) task = err x

  -- `InMemoryTaskService.create`
  unfoldable pub create_task :
      CreateTaskInput → PrincipalContext → TaskStore → W → Result X Task × TaskStore × W
  create_task input principal store w =
      let (id, w₁) = platform.random_uuid w in
      let task = task_of_input id input in
      let stored = put id task store in
      let (event, w₂) = create_event platform (created_event task principal) w₁ in
      let (published, w₃) = publish event w₂ in (after_publish published task, stored, w₃)

  module _ {I Q : Type 0} (enqueue : WorkOrder I → Q → Result X String × Q) where
    abbrev job_of : Task → Result X String → Result X DispatchResult
    job_of task (ok job_id) = ok (record { task = task; job_id = job_id })
    job_of task (err x) = err x

    abbrev enqueue_created :
        DispatchInput → PrincipalContext → Result X Task → Q → Result X DispatchResult × Q
    enqueue_created input principal (err x) q = (err x, q)
    enqueue_created input principal (ok task) q =
        let (job, q') = enqueue (build_work_order task principal.organization_id input.hints) q in
        (job_of task job, q')

    -- `InMemoryTaskDispatcher.dispatch`
    unfoldable pub dispatch_in_memory :
        DispatchInput
        → PrincipalContext
        → TaskStore
        → Q
        → W
        → Result X DispatchResult × TaskStore × Q × W
    dispatch_in_memory input principal store q w =
        let (created, store', w') = create_task (task_input input) principal store w in
        let (result, q') = enqueue_created input principal created q in (result, store', q', w')
