-- ===== src/Domain/Runs.antt =====
-- Sequences of status changes: what holds of a task after any run of `transition`
-- (packages/core-domain/src/task-state-machine.ts).
use donnav.Common.{
  ℕ, Bool, true, false, List, [], ◌∷◌, ◌≡◌, ◌⊎◌, ◌+◌, ◌≤◌, arith, inl, inr, Result, ok,
  Result-cases, err, if◌then◌else◌, In,
}
use donnav.Domain.Tasks.{
  TaskStatus, pending, planned, assigned, running, blocked, awaiting_approval, checking, completed,
  failed, cancelled, Task,
}
use donnav.Domain.Machine.{transition, IllegalTaskTransitionError, is_retry, is_done}

-- The transitions to each of the statuses in turn; the first that throws ends the run.
unfoldable pub run : Task → List TaskStatus → Result IllegalTaskTransitionError Task
run task [] = ok task
run task (to ∷ tos) = elim (transition task to) [ ok t ↦ run t tos | err e ↦ err e ]

-- The retries among the statuses that a run takes.
abbrev pub retries : TaskStatus → List TaskStatus → ℕ
retries from [] = 0
retries from (to ∷ tos) = let rest = retries to tos in if is_retry from to then rest + 1 else rest

transition-counts :
    (task : Task) (to : TaskStatus) {t : Task}
    → transition task to ≡ ok t
    → (t.status ≡ to)
      × (t.max_retries ≡ task.max_retries)
      × (t.retry_count
          ≡ (if is_retry task.status to then task.retry_count + 1 else task.retry_count))
      × (task.retry_count ≤ task.max_retries → t.retry_count ≤ t.max_retries)
unfolding transition
transition-counts task to h = ground arith

-- After any run that succeeds, of a task whose retry counter is within the budget, the counter has
-- grown by the number of retries of the run and is still within the budget, which is unchanged: so
-- no run retries more often than the budget that was left.
pub run-retries :
    (tos : List TaskStatus) (task : Task) (t : Task)
    → run task tos ≡ ok t
    → task.retry_count ≤ task.max_retries
    → (t.max_retries ≡ task.max_retries)
      × (t.retry_count ≡ task.retry_count + retries task.status tos)
      × (t.retry_count ≤ t.max_retries)
      × (task.retry_count + retries task.status tos ≤ task.max_retries)
unfolding run
run-retries [] task t h b = ground arith
run-retries (to ∷ tos) task t h b = elim (Result-cases (transition task to)) [
  | inl (t', e) ↦
      let (moved, kept, counted, within) = transition-counts task to e in
      ground (arith, run-retries tos t' t)
  | inr (x, e) ↦ ground arith
]

-- A status that a task can have before it has ever run.
abbrev before_running : TaskStatus → Bool
before_running pending = true
before_running planned = true
before_running assigned = true
before_running blocked = true
before_running failed = true
before_running cancelled = true
before_running _ = false

transition-before_running :
    (task : Task) (to : TaskStatus) {t : Task}
    → transition task to ≡ ok t
    → before_running task.status ≡ true
    → (t.status ≡ to) × ((to ≡ running) ⊎ (before_running to ≡ true))
unfolding transition
transition-before_running task to h b = ground arith

run-before_running :
    (tos : List TaskStatus) (task : Task) (t : Task)
    → run task tos ≡ ok t
    → before_running task.status ≡ true
    → In running tos ⊎ (before_running t.status ≡ true)
unfolding run
run-before_running [] task t h b = ground arith
run-before_running (to ∷ tos) task t h b = elim (Result-cases (transition task to)) [
  | inl (t', e) ↦
      let (moved, next) = transition-before_running task to e b in
      ground (arith, run-before_running tos t' t)
  | inr (x, e) ↦ ground arith
]

-- A task that starts as `pending` is completed, awaits an approval or is being checked only if it
-- has been `running`.
pub completed_needs_running :
    (tos : List TaskStatus) (task : Task) (t : Task)
    → task.status ≡ pending
    → run task tos ≡ ok t
    → (t.status ≡ completed) ⊎ (t.status ≡ awaiting_approval) ⊎ (t.status ≡ checking)
    → In running tos
completed_needs_running tos task t p h c = ground (arith, run-before_running tos task t h)

-- A done task accepts no run but the empty one.
pub done_absorbs :
    (to : TaskStatus) (tos : List TaskStatus) (task : Task)
    → is_done task ≡ true
    → run task (to ∷ tos) ≡ err (record { from = task.status; to = to })
unfolding run transition is_done
done_absorbs to tos task d = ground arith

abbrev pub path_to : TaskStatus → List TaskStatus
path_to pending = []
path_to planned = planned ∷ []
path_to assigned = planned ∷ assigned ∷ []
path_to running = planned ∷ assigned ∷ running ∷ []
path_to blocked = planned ∷ blocked ∷ []
path_to awaiting_approval = planned ∷ assigned ∷ running ∷ awaiting_approval ∷ []
path_to checking = planned ∷ assigned ∷ running ∷ checking ∷ []
path_to completed = planned ∷ assigned ∷ running ∷ completed ∷ []
path_to failed = planned ∷ assigned ∷ running ∷ failed ∷ []
path_to cancelled = cancelled ∷ []

-- From `pending` every status is reached along its path, by a run that changes nothing but the
-- status.
pub every_status_reached :
    (s : TaskStatus) (task : Task)
    → task.status ≡ pending
    → run task (path_to s) ≡ ok (record task { status = s })
unfolding run transition
every_status_reached s task p = ground arith
