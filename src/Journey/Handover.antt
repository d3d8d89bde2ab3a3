-- ===== src/Journey/Handover.antt =====
-- The job of a dispatched task in the handler of apps/worker/src/worker.ts.
use donnav.Common.{
  inl, inr, String, List, [], ◌∷◌, ◌++◌, ◌≡◌, ◌≢◌, refl, sym, ap, ◌∙◌, subst, arith, none, some,
  Result, ok, err, eq_iff,
}
use donnav.Common.Json.{Value}
use donnav.Domain.Tasks.{TaskStatus}
use donnav.Domain.Machine.{IllegalTaskTransitionError}
use donnav.Policy.Types.{PrincipalContext}
use donnav.Db.{TaskRow, Database}
use donnav.Cost.Ledger.{UsageLedger}
use donnav.Orchestrator.Order.{WorkOrder, WorkOrderResult, OrchestratorDeps, Run}
use donnav.Orchestrator.Json.{Nested, order_value}
use donnav.Orchestrator.Execute.{execute_work_order}
use donnav.Control.Mappers.{build_work_order, task_to_row, inserted_task}
use donnav.Control.Postgres.{Postgres}
use donnav.Control.Dispatch.{DispatchInput, DispatchResult, dispatch}
use donnav.Worker.RoundTrip.{HasSome, parse_order-order_value}
use donnav.Worker.TaskState.{CommitOutcome, applied, set_outcome, find_row, commit_outcome}
use donnav.Worker.TaskLaws.{expected, commit_outcome-applies}
use donnav.Worker.Handler.{
  WorkerState, thrown, JobResult, run_of, outcome_input, committed, settle_run, settle_result,
  parsed_job, handle_job,
}
use donnav.Journey.{made_task, made_row, order_for, dispatch-all_or_nothing}

find_row-snoc :
    (id organization_id : String) (rows : List TaskRow) (row : TaskRow)
    → find_row id organization_id rows ≡ none
    → row.id ≡ id
    → row.organization_id ≡ organization_id
    → find_row id organization_id (rows ++ row ∷ []) ≡ some row
unfolding find_row
find_row-snoc id o [] row h i j = ground (arith, eq_iff row.id id, eq_iff row.organization_id o)
find_row-snoc id o (r ∷ rows) row h i j = ground (arith, find_row-snoc id o rows row)

not_thrown : {X A : Type 0} (x : X) (a : A) → ¬ (err x ≡ ok a)
not_thrown x a h = cc

module _ {W X I O J : Type 0} (deps : OrchestratorDeps W X I O) (nested : Nested I)
    (add_job : WorkOrder I → String → J → J) where
  committed-ok :
      (ledger : UsageLedger) (c : Result IllegalTaskTransitionError CommitOutcome × Database J × W)
      (outcome : CommitOutcome)
      → c.0 ≡ ok outcome
      → committed deps nested add_job ledger c
        ≡ (ok (some outcome), record { world = c.2; ledger = ledger; db = c.1 })
  committed-ok ledger (ok o, db, w) outcome e = ground arith
  committed-ok ledger (err o, db, w) outcome e = ground arith

  -- What becomes of a job that finds the pending row of its task: with what the orchestrator
  -- returned the commit is applied and the row is settled, and with what it threw the job is
  -- rejected and the database is as it was.
  abbrev pub Handled :
      Database J
      → TaskRow
      → Result X (WorkOrderResult O) × Run W
      → JobResult deps nested add_job
      → Type 0
  Handled db row (ok result, run) (outcome, s) =
      let (status, retry_count, retried) = expected result.status row in
      (outcome ≡ ok (some (applied status retried)))
      × (find_row row.id row.organization_id s.db.tasks
          ≡ some (set_outcome status retry_count (deps.platform.now run.world) row))
  Handled db row (err x, run) (outcome, s) = (outcome ≡ err (thrown x)) × (s.db ≡ db)

  settle_run-Handled :
      (order : WorkOrder I) (db : Database J) (row : TaskRow)
      (execution : Result X (WorkOrderResult O) × Run W)
      → order.task_id ≡ some row.id
      → order.organization_id ≡ row.organization_id
      → find_row row.id row.organization_id db.tasks ≡ some row
      → row.status ≡ TaskStatus.pending
      → Handled db row execution (settle_run deps nested add_job order execution db)
  settle_run-Handled order db row (err x, run) i o f p = (refl, refl)
  settle_run-Handled order db row (ok result, run) i o f p =
      let input = outcome_input deps nested add_job order row.id result run.events in
      let commit = commit_outcome deps.platform add_job input db run.world in
      let (status, retry_count, retried) = expected result.status row in
      let settled = set_outcome status retry_count (deps.platform.now run.world) row in
      let here = subst (λ org. find_row row.id org db.tasks ≡ some row) (sym o) f in
      let (a, found, _, _) =
        commit_outcome-applies deps.platform add_job input db run.world row here p in
      subst
        (λ t.
          Handled db row (ok result, run) (settle_result deps nested add_job t order result run db))
        (sym i)
        (subst (Handled db row (ok result, run)) (sym (committed-ok run.ledger commit _ a))
          (refl, subst (λ org. find_row row.id org commit.1.tasks ≡ some settled) o found))

  module _ (server : Postgres J X) (input : DispatchInput) (principal : PrincipalContext) where
    abbrev payload_for : W → Value
    payload_for w = order_value nested (order_for deps.platform nested server input principal w)

    -- A job that was queued by a dispatch, whose organization has a name and whose request, if
    -- there is one, has a message, is read by the worker as the order of the task, whatever
    -- happened in between, and if the row of the task is pending it is handled: with what the
    -- orchestrator returns for the order the commit is applied and the row is settled, and with
    -- what it throws the job is rejected and the database stays as it is.
    pub handle_job-dispatched :
        (w : W) (s : WorkerState W J) (row : TaskRow)
        → principal.organization_id ≢ ""
        → HasSome input.hints.model_request
        → row.id ≡ (made_task deps.platform nested server input principal w).id
        → row.organization_id ≡ principal.organization_id
        → find_row row.id row.organization_id s.db.tasks ≡ some row
        → row.status ≡ TaskStatus.pending
        → Handled s.db row
            (execute_work_order deps
              (order_for deps.platform nested server input principal w)
              (run_of deps nested add_job s))
            (handle_job deps nested add_job (payload_for w) s)
    unfolding handle_job build_work_order
    handle_job-dispatched w s row h m i o f p =
        let order = order_for deps.platform nested server input principal w in
        let execution = execute_work_order deps order (run_of deps nested add_job s) in
        subst (λ r. Handled s.db row execution (parsed_job deps nested add_job r s))
          (sym (parse_order-order_value nested order h m))
          (settle_run-Handled order s.db row execution (ap some (sym i)) (sym o) f p)

    -- After a dispatch of an identifier that is not yet in use the row of the task is found in its
    -- organization, and it is pending, never retried, and with a budget of three retries.
    pub find_row-dispatch :
        (db : Database J) (w : W)
        → let task = made_task deps.platform nested server input principal w in
          let (result, db', w') = dispatch deps.platform nested server input principal db w in
          find_row task.id principal.organization_id db.tasks ≡ none
          → (d : DispatchResult) → result ≡ ok d
          → (row : TaskRow) × (find_row task.id principal.organization_id db'.tasks ≡ some row)
            × (row.status ≡ TaskStatus.pending)
            × (row.retry_count ≡ 0)
            × (row.max_retries ≡ 3)
    unfolding task_to_row inserted_task
    find_row-dispatch db w fresh d e =
        let task = made_task deps.platform nested server input principal w in
        let made = made_row deps.platform nested server input principal w in
        elim (dispatch-all_or_nothing deps.platform nested server input principal db w) [
          | inl (x, q) ↦ absurd (not_thrown x d (sym (ap (λ r. r.0) q) ∙ e))
          | inr (id, jobs, queued, q) ↦ (
            made,
            subst (λ r. find_row task.id principal.organization_id r.1.tasks ≡ some made) (sym q)
                (find_row-snoc task.id principal.organization_id db.tasks made fresh refl refl),
            refl,
            refl,
            refl,
          )
        ]
