-- ===== src/Domain/Machine.antt =====
-- packages/core-domain/src/task-state-machine.ts: which status follows which, and `transition`.
use donnav.Common.{
  Bool, true, false, List, [], ◌∷◌, ◌≡◌, ◌↔◌, ◌&&◌, not, ◌⊎◌, ◌+◌, ◌<◌, ◌≤◌, arith, leb, ◌==◌,
  includes, Result, ok, err, if◌then◌else◌,
}
use donnav.Domain.Tasks.{
  TaskStatus, pending, planned, assigned, running, blocked, awaiting_approval, checking, completed,
  failed, cancelled, status_eq, is_terminal_task_status, Task,
}

-- `ALLOWED_TRANSITIONS`, read by `allowedTransitions`.
unfoldable pub allowed_transitions : TaskStatus → List TaskStatus
allowed_transitions pending = planned ∷ cancelled ∷ []
allowed_transitions planned = assigned ∷ blocked ∷ cancelled ∷ []
allowed_transitions assigned = running ∷ blocked ∷ cancelled ∷ []
allowed_transitions running =
    checking ∷ awaiting_approval ∷ blocked ∷ completed ∷ failed ∷ cancelled ∷ []
allowed_transitions blocked = assigned ∷ running ∷ failed ∷ cancelled ∷ []
allowed_transitions awaiting_approval = running ∷ failed ∷ cancelled ∷ []
allowed_transitions checking = completed ∷ running ∷ failed ∷ []
allowed_transitions completed = []
allowed_transitions failed = pending ∷ cancelled ∷ []
allowed_transitions cancelled = []

unfoldable pub can_transition : TaskStatus → TaskStatus → Bool
unfolding allowed_transitions
can_transition from to = includes (allowed_transitions from) to

-- `IllegalTaskTransitionError`
pub record IllegalTaskTransitionError : Type 0 where
  pub from : TaskStatus
  pub to : TaskStatus

-- A `failed -> pending` step, the only one that counts as a retry.
abbrev pub is_retry : TaskStatus → TaskStatus → Bool
is_retry from to = (from == failed) && (to == pending)

-- A throw is `err`.
unfoldable pub transition : Task → TaskStatus → Result IllegalTaskTransitionError Task
unfolding can_transition
transition task to =
    let refused = err (record { from = task.status; to = to }) in
    let retry = is_retry task.status to in
    if not (can_transition task.status to)
    then refused
    else if retry && leb task.max_retries task.retry_count
    then refused
    else ok (record task {
      status = to;
      retry_count = if retry then task.retry_count + 1 else task.retry_count;
    })

unfoldable pub is_done : Task → Bool
unfolding is_terminal_task_status
is_done task = is_terminal_task_status task.status

-- A task is done exactly when no transition is allowed from its status.
pub is_done_iff : (task : Task) → (is_done task ≡ true) ↔ (allowed_transitions task.status ≡ [])
unfolding is_done allowed_transitions
is_done_iff task = ground arith

-- The cases of `transition`: it succeeds exactly when the step is allowed and is no retry beyond
-- the budget; then only the status and, at a retry, the retry counter change; and otherwise the
-- error names the two statuses.
pub transition_cases :
    (task : Task) (to : TaskStatus)
    → ((can_transition task.status to ≡ true)
        × ((is_retry task.status to ≡ false) ⊎ (task.retry_count < task.max_retries))
        × (transition task to
            ≡ ok (record task {
              status = to;
              retry_count =
                  if is_retry task.status to then task.retry_count + 1 else task.retry_count;
            })))
      ⊎ (((can_transition task.status to ≡ false)
            ⊎ ((is_retry task.status to ≡ true) × (task.max_retries ≤ task.retry_count)))
          × (transition task to ≡ err (record { from = task.status; to = to })))
unfolding transition
transition_cases task to = ground arith
