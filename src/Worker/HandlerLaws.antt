-- ===== src/Worker/HandlerLaws.antt =====
-- What a job of apps/worker/src/worker.ts leaves alone.
use donnav.Common.{
  [], ◌∷◌, some_injective, String, List, ◌≡◌, refl, sym, ap, ◌∙◌, subst, arith, Option, none, some,
  Result, ok, err, Result-cases, inl, inr,
}
use donnav.Common.Json.{Value}
use donnav.Domain.Events.{EventEnvelope}
use donnav.Domain.Machine.{IllegalTaskTransitionError}
use donnav.Domain.Tasks.{pending}
use donnav.Db.{TaskRow, Database}
use donnav.Cost.Ledger.{UsageLedger}
use donnav.Orchestrator.Order.{WorkOrder, WorkOrderResult, OrchestratorDeps, Run}
use donnav.Orchestrator.Json.{Nested}
use donnav.Orchestrator.Execute.{execute_work_order}
use donnav.Worker.Casts.{parse_order}
use donnav.Worker.TaskState.{CommitOutcome, find_row, commit_outcome}
use donnav.Worker.TaskLaws.{commit_outcome-skips, commit_outcome-others}
use donnav.Worker.Handler.{
  WorkerState, publish_row, publish_rows, run_of, outcome_input, committed, settle_run,
  settle_result, parsed_job, handle_job,
}

publish_rows-tasks :
    {J : Type 0} (events : List EventEnvelope) (db : Database J)
    → (publish_rows events db).tasks ≡ db.tasks
unfolding publish_rows publish_row
publish_rows-tasks [] db = refl
publish_rows-tasks (e ∷ events) db = publish_rows-tasks events (publish_row e db)

module _ {W X I O J : Type 0} (deps : OrchestratorDeps W X I O) (nested : Nested I)
    (add_job : WorkOrder I → String → J → J) where
  -- The commit is all that a job does to the database.
  committed-db :
      (ledger : UsageLedger) (c : Result IllegalTaskTransitionError CommitOutcome × Database J × W)
      → (committed deps nested add_job ledger c).1.db ≡ c.1
  committed-db ledger (ok o, db, w) = refl
  committed-db ledger (err e, db, w) = refl

  -- The order has a task, and the task has no pending row.
  abbrev pub NotPending : Database J → WorkOrder I → Type 0
  NotPending db order =
      (id : String) × (order.task_id ≡ some id)
      × ((row : TaskRow)
          → find_row id order.organization_id db.tasks ≡ some row
          → ¬ (row.status ≡ pending))

  settle_result-idle :
      (t : Option String) (id : String) (order : WorkOrder I) (result : WorkOrderResult O)
      (run : Run W) (db : Database J)
      → t ≡ some id
      → ((row : TaskRow)
          → find_row id order.organization_id db.tasks ≡ some row
          → ¬ (row.status ≡ pending))
      → (settle_result deps nested add_job t order result run db).1.db ≡ db
  settle_result-idle none id order result run db e n = ground arith
  settle_result-idle (some t) id order result run db e n =
      let input = outcome_input deps nested add_job order t result run.events in
      let (reason, q) = commit_outcome-skips deps.platform add_job input db run.world (λ row f.
        n row (
          subst (λ i. find_row i order.organization_id db.tasks ≡ some row) (some_injective t id e)
            f)) in
      committed-db run.ledger (commit_outcome deps.platform add_job input db run.world)
      ∙ ap (λ c. c.1) q

  settle_run-idle :
      (order : WorkOrder I) (r : Result X (WorkOrderResult O) × Run W) (db : Database J)
      → NotPending db order
      → (settle_run deps nested add_job order r db).1.db ≡ db
  settle_run-idle order (ok result, run) db (id, e, n) =
      settle_result-idle order.task_id id order result run db e n
  settle_run-idle order (err x, run) db h = refl

  -- A job whose payload is not accepted, or whose task has no row in the organization or one that is
  -- not pending, leaves the database as it is, whatever the orchestrator does: so a job that is run
  -- again after its task was settled settles nothing a second time and adds no event.
  pub handle_job-idle :
      (payload : Value) (s : WorkerState W J)
      → ((order : WorkOrder I) → parse_order nested payload ≡ ok order → NotPending s.db order)
      → (handle_job deps nested add_job payload s).1.db ≡ s.db
  unfolding handle_job
  handle_job-idle payload s h = elim (Result-cases (parse_order nested payload)) [
    | inl (order, e) ↦
        let execution = execute_work_order deps order (run_of deps nested add_job s) in
        subst (λ r. (parsed_job deps nested add_job r s).1.db ≡ s.db) (sym e)
          (settle_run-idle order execution s.db (h order e))
    | inr (message, e) ↦ rw (e) refl
  ]

  settle_result-others :
      (task_id : Option String) (order : WorkOrder I) (result : WorkOrderResult O) (run : Run W)
      (db : Database J) (t o : String)
      → ¬ ((task_id ≡ some t) × (order.organization_id ≡ o))
      → find_row t o (settle_result deps nested add_job task_id order result run db).1.db.tasks
        ≡ find_row t o db.tasks
  settle_result-others none order result run db t o n =
      ap (find_row t o) (publish_rows-tasks run.events db)
  settle_result-others (some id) order result run db t o n =
      let input = outcome_input deps nested add_job order id result run.events in
      let commit = commit_outcome deps.platform add_job input db run.world in
      ap (λ after. find_row t o after.tasks) (committed-db run.ledger commit)
      ∙ commit_outcome-others deps.platform add_job input db run.world t o
          (λ same. n (ap some (sym same.0), sym same.1))

  settle_run-others :
      (order : WorkOrder I) (r : Result X (WorkOrderResult O) × Run W) (db : Database J)
      (t o : String)
      → ¬ ((order.task_id ≡ some t) × (order.organization_id ≡ o))
      → find_row t o (settle_run deps nested add_job order r db).1.db.tasks ≡ find_row t o db.tasks
  settle_run-others order (ok result, run) db t o n =
      settle_result-others order.task_id order result run db t o n
  settle_run-others order (err x, run) db t o n = refl

  -- No job touches the row of a task that its payload does not name, nor a row of an organization
  -- that it does not name.
  pub handle_job-others :
      (payload : Value) (s : WorkerState W J) (t o : String)
      → ((order : WorkOrder I)
          → parse_order nested payload ≡ ok order
          → ¬ ((order.task_id ≡ some t) × (order.organization_id ≡ o)))
      → find_row t o (handle_job deps nested add_job payload s).1.db.tasks ≡ find_row t o s.db.tasks
  unfolding handle_job
  handle_job-others payload s t o h = elim (Result-cases (parse_order nested payload)) [
    | inl (order, e) ↦
        let execution = execute_work_order deps order (run_of deps nested add_job s) in
        subst
          (λ r.
            find_row t o (parsed_job deps nested add_job r s).1.db.tasks ≡ find_row t o s.db.tasks)
          (sym e) (settle_run-others order execution s.db t o (h order e))
    | inr (message, e) ↦ rw (e) refl
  ]
