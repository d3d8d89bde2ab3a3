-- ===== src/Worker/TaskState.antt =====
-- apps/worker/src/task-state.ts: the commit of an outcome. The tables are lists of rows. The job
-- queue of graphile-worker is a parameter: a state `J` and its function `add_job`. The statements of
-- the transaction are taken to succeed: where the database refuses one, the transaction leaves the
-- tables as they were and `commitOutcome` throws what the database has thrown.
use donnav.Common.{
  ℕ, String, Bool, true, false, List, [], ◌∷◌, ◌++◌, ◌&&◌, not, ◌+◌, Option, none, some, get_or,
  Result, ok, err, map, ltb, ◌==◌, string_eq, if◌then◌else◌,
}
use donnav.Domain.Events.{task_retried, Actor, ActorType, EventEnvelope}
use donnav.Db.{TaskRow, Database, event_envelope_to_row}
use donnav.Domain.Tasks.{
  TaskStatus, pending, planned, assigned, running, blocked, awaiting_approval, completed, failed,
  status_eq, is_terminal_task_status,
}
use donnav.Domain.Machine.{can_transition, IllegalTaskTransitionError}
use donnav.Events.Create.{Platform, CreateEventInput, create_event}
use donnav.Orchestrator.Order.{WorkOrder, WorkOrderStatus}

-- `BufferingEventBus`: its state is the list of its events.
abbrev pub buffer_publish : EventEnvelope → List EventEnvelope → List EventEnvelope
buffer_publish event events = events ++ event ∷ []

-- `drain()`: what was buffered, and the empty buffer.
abbrev pub drain : List EventEnvelope → List EventEnvelope × List EventEnvelope
drain events = (events, [])

pub data TargetStatus : Type 0 where
  to_completed to_failed to_awaiting_approval to_blocked : TargetStatus

-- `PATH_TO_TARGET`
abbrev pub path_to_target : TargetStatus → List TaskStatus
path_to_target to_completed = planned ∷ assigned ∷ running ∷ completed ∷ []
path_to_target to_failed = planned ∷ assigned ∷ running ∷ failed ∷ []
path_to_target to_awaiting_approval = planned ∷ assigned ∷ running ∷ awaiting_approval ∷ []
path_to_target to_blocked = planned ∷ blocked ∷ []

abbrev pub target_status_for_result : WorkOrderStatus → TargetStatus
target_status_for_result WorkOrderStatus.completed = to_completed
target_status_for_result WorkOrderStatus.failed = to_failed
target_status_for_result WorkOrderStatus.approval_required = to_awaiting_approval
target_status_for_result WorkOrderStatus.denied = to_blocked
target_status_for_result WorkOrderStatus.blocked = to_blocked
target_status_for_result WorkOrderStatus.budget_exceeded = to_blocked
target_status_for_result WorkOrderStatus.awaiting_human = to_blocked

pub record CommitOutcomeInput (I : Type 0) : Type 0 where
  pub task_id : String
  pub organization_id : String
  pub status : WorkOrderStatus
  pub events : List EventEnvelope
  pub order : WorkOrder I
  pub actor : Option Actor

pub data NotApplied : Type 0 where
  not_found already_terminal not_pending : NotApplied

pub data CommitOutcome : Type 0 where
  applied : TaskStatus → Bool → CommitOutcome
  not_applied : NotApplied → CommitOutcome

-- `where id = … and organization_id = …`
abbrev pub is_row : String → String → TaskRow → Bool
is_row task_id organization_id row = (row.id == task_id) && (row.organization_id == organization_id)

-- `select … limit 1`
unfoldable pub find_row : String → String → List TaskRow → Option TaskRow
find_row task_id organization_id [] = none
find_row task_id organization_id (row ∷ rows) =
    if is_row task_id organization_id row then some row else find_row task_id organization_id rows

-- `update … set … where …`
unfoldable pub update_rows : String → String → (TaskRow → TaskRow) → List TaskRow → List TaskRow
update_rows task_id organization_id change =
    map (λ row. if is_row task_id organization_id row then change row else row)

-- The loop over `PATH_TO_TARGET`.
unfoldable pub walk : TaskStatus → List TaskStatus → Result IllegalTaskTransitionError TaskStatus
walk status [] = ok status
walk status (next ∷ rest) =
    let walked = walk next rest in
    if not (can_transition status next) then err (record { from = status; to = next }) else walked

-- What the walk and the retry come to: the status, the retry counter and whether it is a retry.
abbrev pub is_failed_target : TargetStatus → Bool
is_failed_target to_failed = true
is_failed_target _ = false

abbrev pub Resolution : Type 0
Resolution = TaskStatus × ℕ × Bool

abbrev pub resolve_retry :
    TargetStatus → ℕ → ℕ → TaskStatus → Result IllegalTaskTransitionError Resolution
resolve_retry target retry_count max_retries status =
    if is_failed_target target && ltb retry_count max_retries
    then if not (can_transition status pending)
      then err (record { from = status; to = pending })
      else ok (pending, retry_count + 1, true)
    else ok (status, retry_count, false)

abbrev pub resolve_walk :
    TargetStatus
    → ℕ
    → ℕ
    → Result IllegalTaskTransitionError TaskStatus
    → Result IllegalTaskTransitionError Resolution
resolve_walk target retry_count max_retries (ok status) =
    resolve_retry target retry_count max_retries status
resolve_walk target retry_count max_retries (err e) = err e

unfoldable pub resolve_outcome :
    WorkOrderStatus → TaskRow → Result IllegalTaskTransitionError Resolution
unfolding walk can_transition
resolve_outcome status row =
    let target = target_status_for_result status in
    resolve_walk target row.retry_count row.max_retries (walk row.status (path_to_target target))

-- `set({ status, retryCount, updatedAt })`
abbrev pub set_outcome : TaskStatus → ℕ → ℕ → TaskRow → TaskRow
set_outcome status retry_count now row = record row {
  status = status;
  retry_count = retry_count;
  updated_at = now;
}

module _ {W J I : Type 0} (platform : Platform W) (add_job : WorkOrder I → String → J → J) where
  abbrev pub Commit : Type 0
  Commit = Result IllegalTaskTransitionError CommitOutcome × Database J × W

  -- The `task.retried` event.
  abbrev pub retried_event : CommitOutcomeInput I → TaskRow → CreateEventInput
  retried_event input row = record {
    type = task_retried;
    organization_id = input.organization_id;
    actor = get_or input.actor (record { type = ActorType.orchestrator; id = "worker" });
    objective_id = some row.objective_id;
    task_id = some input.task_id;
    correlation_id = none;
    causation_id = none;
    payload_ref = none;
    now = none;
  }

  -- The event and the job of a retry.
  unfoldable pub enqueue_retry : CommitOutcomeInput I → TaskRow → Database J → W → Database J × W
  enqueue_retry input row db w =
      let (event, w') = create_event platform (retried_event input row) w in
      (
        record db {
          events = db.events ++ event_envelope_to_row event ∷ [];
          jobs = add_job input.order input.task_id db.jobs;
        },
        w',
      )

  abbrev pub if_retried : Bool → CommitOutcomeInput I → TaskRow → Database J → W → Database J × W
  if_retried true input row db w = enqueue_retry input row db w
  if_retried false input row db w = (db, w)

  -- The writes of the transaction; a throw rolls them all back.
  abbrev pub write_outcome :
      CommitOutcomeInput I
      → TaskRow
      → Result IllegalTaskTransitionError Resolution
      → Database J
      → W
      → Commit
  write_outcome input row (err e) db w = (err e, db, w)
  write_outcome input row (ok (status, retry_count, retried)) db w =
      let traced = record db { events = db.events ++ map event_envelope_to_row input.events } in
      let updated = record traced {
        tasks =
            update_rows input.task_id input.organization_id
              (set_outcome status retry_count (platform.now w)) db.tasks;
      } in
      let (committed, w') = if_retried retried input row updated w in
      (ok (applied status retried), committed, w')

  -- The row that was found, and the three early returns.
  abbrev pub commit_row : CommitOutcomeInput I → Option TaskRow → Database J → W → Commit
  commit_row input none db w = (ok (not_applied not_found), db, w)
  commit_row input (some row) db w =
      if is_terminal_task_status row.status
      then (ok (not_applied already_terminal), db, w)
      else if not (row.status == pending)
      then (ok (not_applied not_pending), db, w)
      else write_outcome input row (resolve_outcome input.status row) db w

  unfoldable pub commit_outcome : CommitOutcomeInput I → Database J → W → Commit
  commit_outcome input db w =
      commit_row input (find_row input.task_id input.organization_id db.tasks) db w
