-- ===== src/Worker/TaskLaws.antt =====
-- What a commit of apps/worker/src/task-state.ts does to the row of its task and to all the rest.
use donnav.Common.{
  ℕ, String, Bool, true, false, List, [], ◌∷◌, ◌++◌, ◌≡◌, inl, inr, refl, sym, ap, subst, ◌+◌, ◌&&◌,
  arith, map, some, ok, ltb, ◌==◌, string_eq, Bool-cases, Option-cases, eq_iff, if◌then◌else◌,
  append-nil_lem, false_iff,
}
use donnav.Domain.Tasks.{
  TaskStatus, pending, blocked, awaiting_approval, completed, failed, status_eq, status_beq_iff,
  is_terminal_task_status,
}
use donnav.Domain.Machine.{can_transition, allowed_transitions}
use donnav.Events.Create.{Platform, create_event}
use donnav.Orchestrator.Order.{WorkOrder, WorkOrderStatus}
use donnav.Db.{EventRow, TaskRow, Database, event_envelope_to_row}
use donnav.Worker.TaskState.{
  CommitOutcomeInput, applied, not_applied, NotApplied, not_found, already_terminal, not_pending,
  Resolution, retried_event, set_outcome, find_row, update_rows, walk, resolve_outcome,
  enqueue_retry, write_outcome, commit_row, commit_outcome, Commit,
}

-- The status in which an outcome leaves a task that is not retried.
abbrev pub settled_status : WorkOrderStatus → TaskStatus
settled_status WorkOrderStatus.completed = completed
settled_status WorkOrderStatus.failed = failed
settled_status WorkOrderStatus.approval_required = awaiting_approval
settled_status WorkOrderStatus.denied = blocked
settled_status WorkOrderStatus.blocked = blocked
settled_status WorkOrderStatus.budget_exceeded = blocked
settled_status WorkOrderStatus.awaiting_human = blocked

abbrev pub is_failure : WorkOrderStatus → Bool
is_failure WorkOrderStatus.failed = true
is_failure _ = false

-- What is expected of a pending row: its status, its counter, and whether it is retried.
abbrev pub expected : WorkOrderStatus → TaskRow → Resolution
expected status row =
    if is_failure status && ltb row.retry_count row.max_retries
    then (pending, row.retry_count + 1, true)
    else (settled_status status, row.retry_count, false)

-- From a pending row the walk meets no illegal step, whatever the outcome.
pub resolve_outcome-pending :
    (status : WorkOrderStatus) (row : TaskRow)
    → row.status ≡ pending
    → resolve_outcome status row ≡ ok (expected status row)
unfolding resolve_outcome walk can_transition allowed_transitions
resolve_outcome-pending status row h = ground arith

find_row-update_rows_other :
    (t o t' o' : String) (s : TaskStatus) (n now : ℕ) (rows : List TaskRow)
    → ¬ ((t' ≡ t) × (o' ≡ o))
    → find_row t' o' (update_rows t o (set_outcome s n now) rows) ≡ find_row t' o' rows
unfolding find_row update_rows
find_row-update_rows_other t o t' o' s n now [] h = refl
find_row-update_rows_other t o t' o' s n now (row ∷ rows) h = ground (
  arith,
  eq_iff row.id t,
  eq_iff row.organization_id o,
  eq_iff row.id t',
  eq_iff row.organization_id o',
  find_row-update_rows_other t o t' o' s n now rows h,
)

find_row-update_rows :
    (t o : String) (s : TaskStatus) (n now : ℕ) (rows : List TaskRow) (row : TaskRow)
    → find_row t o rows ≡ some row
    → find_row t o (update_rows t o (set_outcome s n now) rows) ≡ some (set_outcome s n now row)
unfolding find_row update_rows
find_row-update_rows t o s n now [] row h = ground arith
find_row-update_rows t o s n now (r ∷ rows) row h =
    ground (arith, find_row-update_rows t o s n now rows row)

module _ {W J I : Type 0} (platform : Platform W) (add_job : WorkOrder I → String → J → J)
    (input : CommitOutcomeInput I) where
  commit_row-pending :
      (db : Database J) (w : W) (row : TaskRow)
      → row.status ≡ pending
      → commit_row platform add_job input (some row) db w
        ≡ write_outcome platform add_job input row (resolve_outcome input.status row) db w
  unfolding is_terminal_task_status
  commit_row-pending db w row h = rw (h) refl

  commit_outcome-pending :
      (db : Database J) (w : W) (row : TaskRow)
      → find_row input.task_id input.organization_id db.tasks ≡ some row
      → row.status ≡ pending
      → commit_outcome platform add_job input db w
        ≡ write_outcome platform add_job input row (ok (expected input.status row)) db w
  unfolding commit_outcome
  commit_outcome-pending db w row e h =
      rw (e, commit_row-pending db w row h, resolve_outcome-pending input.status row h) refl

  abbrev retry_rows : TaskRow → Bool → W → List EventRow
  retry_rows row false w = []
  retry_rows row true w =
      event_envelope_to_row (create_event platform (retried_event platform add_job input row) w).0
      ∷ []

  -- What a commit comes to that gives the row of the task this status and counter.
  abbrev pub Settles : Database J → W → TaskRow → Resolution → Commit platform add_job → Type 0
  Settles db w row (status, retry_count, retried) (outcome, after, w') =
      (outcome ≡ ok (applied status retried))
      × (find_row input.task_id input.organization_id after.tasks
          ≡ some (set_outcome status retry_count (platform.now w) row))
      × (after.events
          ≡ (db.events ++ map event_envelope_to_row input.events) ++ retry_rows row retried w)
      × (after.jobs ≡ (if retried then add_job input.order input.task_id db.jobs else db.jobs))

  write_outcome-Settles :
      (db : Database J) (w : W) (row : TaskRow) (r : Resolution)
      → find_row input.task_id input.organization_id db.tasks ≡ some row
      → Settles db w row r (write_outcome platform add_job input row (ok r) db w)
  unfolding enqueue_retry
  write_outcome-Settles db w row (status, n, true) e = (
    refl,
    find_row-update_rows input.task_id input.organization_id status n (platform.now w) db.tasks row
        e,
    refl,
    refl,
  )
  write_outcome-Settles db w row (status, n, false) e = (
    refl,
    find_row-update_rows input.task_id input.organization_id status n (platform.now w) db.tasks row
        e,
    sym (append-nil_lem (db.events ++ map event_envelope_to_row input.events)),
    refl,
  )

  -- The commit for a pending task is applied: the row of the task gets the expected status and
  -- counter, the events get the trace, and a `task.retried` event and a job are added exactly
  -- when the task is retried: that is, when it failed and its retry counter is below its budget.
  pub commit_outcome-applies :
      (db : Database J) (w : W) (row : TaskRow)
      → find_row input.task_id input.organization_id db.tasks ≡ some row
      → row.status ≡ pending
      → Settles db w row (expected input.status row) (commit_outcome platform add_job input db w)
  commit_outcome-applies db w row e h =
      subst (Settles db w row (expected input.status row))
        (sym (commit_outcome-pending db w row e h))
        (write_outcome-Settles db w row (expected input.status row) e)

  commit_row-skips :
      (db : Database J) (w : W) (row : TaskRow)
      → ¬ (row.status ≡ pending)
      → (reason : NotApplied) × (commit_row platform add_job input (some row) db w
          ≡ (ok (not_applied reason), db, w))
  commit_row-skips db w row h = elim (Bool-cases (is_terminal_task_status row.status)) [
    | inl e ↦ rw (e) (already_terminal, refl)
    | inr e ↦ rw (e) (not_pending, ground (arith, status_beq_iff row.status pending))
  ]

  -- A commit whose task has no row in the organization, or only a row that is not pending, is
  -- not applied, and leaves the database and the world as they are.
  pub commit_outcome-skips :
      (db : Database J) (w : W)
      → ((row : TaskRow)
          → find_row input.task_id input.organization_id db.tasks ≡ some row
          → ¬ (row.status ≡ pending))
      → (reason : NotApplied) × (commit_outcome platform add_job input db w
          ≡ (ok (not_applied reason), db, w))
  unfolding commit_outcome
  commit_outcome-skips db w h =
      elim (Option-cases (find_row input.task_id input.organization_id db.tasks)) [
        | inl e ↦ rw (e) (not_found, refl)
        | inr (row, e) ↦ rw (e) (commit_row-skips db w row (h row e))
      ]

  write_outcome-others :
      (db : Database J) (w : W) (row : TaskRow) (r : Resolution) (t o : String)
      → ¬ ((t ≡ input.task_id) × (o ≡ input.organization_id))
      → find_row t o (write_outcome platform add_job input row (ok r) db w).1.tasks
        ≡ find_row t o db.tasks
  unfolding enqueue_retry
  write_outcome-others db w row (s, n, true) t o =
      find_row-update_rows_other input.task_id input.organization_id t o s n (platform.now w)
        db.tasks
  write_outcome-others db w row (s, n, false) t o =
      find_row-update_rows_other input.task_id input.organization_id t o s n (platform.now w)
        db.tasks

  commit_row-others :
      (db : Database J) (w : W) (row : TaskRow) (t o : String)
      → ¬ ((t ≡ input.task_id) × (o ≡ input.organization_id))
      → find_row t o (commit_row platform add_job input (some row) db w).1.tasks
        ≡ find_row t o db.tasks
  commit_row-others db w row t o n = elim (Bool-cases (row.status == pending)) [
    | inl e ↦
        let h = (status_beq_iff row.status pending).0 e in
        rw (commit_row-pending db w row h, resolve_outcome-pending input.status row h)
          (write_outcome-others db w row (expected input.status row) t o n)
    | inr e ↦
        let (reason, k) =
          commit_row-skips db w row
            ((false_iff (row.status == pending) (status_beq_iff row.status pending)).0 e) in
        ap (λ c. find_row t o c.1.tasks) k
  ]

  -- No commit touches the row of another task, nor of another organization's task.
  pub commit_outcome-others :
      (db : Database J) (w : W) (t o : String)
      → ¬ ((t ≡ input.task_id) × (o ≡ input.organization_id))
      → find_row t o (commit_outcome platform add_job input db w).1.tasks ≡ find_row t o db.tasks
  unfolding commit_outcome
  commit_outcome-others db w t o n =
      elim (Option-cases (find_row input.task_id input.organization_id db.tasks)) [
        | inl e ↦ rw (e) refl
        | inr (row, e) ↦ rw (e) (commit_row-others db w row t o n)
      ]
