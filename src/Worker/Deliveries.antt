-- ===== src/Worker/Deliveries.antt =====
-- Repeated deliveries of one job: a second commit of an outcome, and the retries that
-- apps/worker/src/task-state.ts allows a task whose executions all fail.
use donnav.Common.{
  some_injective, ℕ, zero, suc, String, true, false, ◌≡◌, refl, sym, ◌∙◌, ap, ◌+◌, ◌≤◌, ◌<◌, arith,
  Option, some, ok,
}
use donnav.Domain.Tasks.{pending, failed}
use donnav.Events.Create.{Platform}
use donnav.Orchestrator.Order.{WorkOrder, WorkOrderStatus}
use donnav.Db.{TaskRow, Database}
use donnav.Worker.TaskState.{
  CommitOutcomeInput, NotApplied, not_applied, set_outcome, find_row, commit_outcome,
}
use donnav.Worker.TaskLaws.{expected, commit_outcome-applies, commit_outcome-skips}

expected-settled :
    (status : WorkOrderStatus) (row : TaskRow)
    → (expected status row).2 ≡ false
    → ¬ ((expected status row).0 ≡ pending)
expected-settled status row h = ground arith

expected-retry :
    (status : WorkOrderStatus) (row : TaskRow)
    → status ≡ WorkOrderStatus.failed
    → row.retry_count < row.max_retries
    → expected status row ≡ (pending, row.retry_count + 1, true)
expected-retry status row f l = ground arith

expected-spent :
    (status : WorkOrderStatus) (row : TaskRow)
    → status ≡ WorkOrderStatus.failed
    → row.max_retries ≤ row.retry_count
    → expected status row ≡ (failed, row.retry_count, false)
expected-spent status row f l = ground arith

module _ {W J I : Type 0} (platform : Platform W) (add_job : WorkOrder I → String → J → J)
    (input : CommitOutcomeInput I) where
  abbrev pub row_of : Database J → Option TaskRow
  row_of db = find_row input.task_id input.organization_id db.tasks

  -- The commits of `n` executions of the job that come to the same outcome.
  unfoldable pub deliver : ℕ → Database J → W → Database J × W
  deliver zero db w = (db, w)
  deliver (suc n) db w =
      let (outcome, db', w') = commit_outcome platform add_job input db w in deliver n db' w'

  -- After a commit for a pending task whose outcome is not retried, a second commit of the outcome
  -- is not applied and changes nothing.
  pub commit_outcome-once :
      (db : Database J) (w : W) (row : TaskRow)
      → row_of db ≡ some row
      → row.status ≡ pending
      → (expected input.status row).2 ≡ false
      → let (outcome, db', w') = commit_outcome platform add_job input db w in
        (reason : NotApplied) × (commit_outcome platform add_job input db' w'
          ≡ (ok (not_applied reason), db', w'))
  commit_outcome-once db w row e h r =
      let (outcome, db', w') = commit_outcome platform add_job input db w in
      let (a, found, b, c) = commit_outcome-applies platform add_job input db w row e h in
      commit_outcome-skips platform add_job input db' w' (λ row' e' p.
        expected-settled input.status row r
          (ap (λ x. x.status) (some_injective _ _ (sym found ∙ e')) ∙ p))

  -- One failed execution with budget left.
  deliver_step :
      (db : Database J) (w : W) (row : TaskRow)
      → input.status ≡ WorkOrderStatus.failed
      → row_of db ≡ some row
      → row.status ≡ pending
      → row.retry_count < row.max_retries
      → row_of (commit_outcome platform add_job input db w).1
        ≡ some (set_outcome pending (row.retry_count + 1) (platform.now w) row)
  deliver_step db w row f e h l =
      let (a, found, b, c) = commit_outcome-applies platform add_job input db w row e h in
      found
      ∙ ap (λ (s, n, r). some (set_outcome s n (platform.now w) row))
          (expected-retry input.status row f l)

  -- A pending task whose executions all fail is still pending after as many of them as its budget
  -- has left, or fewer; its counter has grown by their number.
  pub deliver-retries :
      (n : ℕ) (db : Database J) (w : W) (row : TaskRow)
      → input.status ≡ WorkOrderStatus.failed
      → row_of db ≡ some row
      → row.status ≡ pending
      → row.retry_count + n ≤ row.max_retries
      → (row' : TaskRow) × (row_of (deliver n db w).0 ≡ some row')
        × (row'.status ≡ pending)
        × (row'.retry_count ≡ row.retry_count + n)
        × (row'.max_retries ≡ row.max_retries)
  unfolding deliver
  deliver-retries zero db w row f e h l = (row, e, h, omega arith, refl)
  deliver-retries (suc n) db w row f e h l =
      let (outcome, db', w') = commit_outcome platform add_job input db w in
      let (row', found, k, c, m) =
        deliver-retries n db' w' (set_outcome pending (row.retry_count + 1) (platform.now w) row) f
          (deliver_step db w row f e h (omega (arith, l))) refl (omega (arith, l)) in
      (row', found, k, omega (arith, c), m)

  deliver_last :
      (n : ℕ) (db : Database J) (w : W)
      → deliver (suc n) db w ≡ (
          let (db', w') = deliver n db w in
          let (outcome, after, w'') = commit_outcome platform add_job input db' w' in (after, w''))
  unfolding deliver
  deliver_last zero db w = refl
  deliver_last (suc n) db w =
      let (outcome, db', w') = commit_outcome platform add_job input db w in deliver_last n db' w'

  -- A pending task whose executions all fail is failed after one more of them than its budget has
  -- left, with the whole budget used.
  pub deliver-fails :
      (n : ℕ) (db : Database J) (w : W) (row : TaskRow)
      → input.status ≡ WorkOrderStatus.failed
      → row_of db ≡ some row
      → row.status ≡ pending
      → row.retry_count + n ≡ row.max_retries
      → (row' : TaskRow) × (row_of (deliver (suc n) db w).0 ≡ some row')
        × (row'.status ≡ failed)
        × (row'.retry_count ≡ row.max_retries)
  deliver-fails n db w row f e h l =
      let (db', w') = deliver n db w in
      let (row', found, k, c, m) = deliver-retries n db w row f e h (omega (arith, l)) in
      let (a, settled, b, d) = commit_outcome-applies platform add_job input db' w' row' found k in
      let x = expected-spent input.status row' f (omega (arith, l, c, m)) in
      (
        set_outcome failed row'.retry_count (platform.now w') row',
        ap (λ s. row_of s.0) (deliver_last n db w)
            ∙ settled
            ∙ ap (λ (s, n, r). some (set_outcome s n (platform.now w') row')) x,
        refl,
        omega (arith, l, c, m),
      )
