-- ===== src/Worker/Handler.antt =====
-- apps/worker/src/worker.ts: the task `execute-work-order`, which joins the parser, the orchestrator,
-- the buffer of its events and the commit; apps/worker/src/outbox-bus.ts. The lines that it logs are
-- not modelled, nor a failure of the database, which the source leaves to the job queue.
use donnav.Common.{String, [], ◌∷◌, ◌++◌, List, Option, none, some, Result, ok, err}
use donnav.Common.Json.{Value}
use donnav.Domain.Events.{EventEnvelope}
use donnav.Domain.Machine.{IllegalTaskTransitionError}
use donnav.Db.{Database, event_envelope_to_row}
use donnav.Cost.Ledger.{UsageLedger}
use donnav.Orchestrator.Order.{WorkOrder, WorkOrderResult, OrchestratorDeps, Run}
use donnav.Orchestrator.Json.{Nested}
use donnav.Orchestrator.Execute.{execute_work_order}
use donnav.Worker.Casts.{parse_order}
use donnav.Worker.TaskState.{CommitOutcomeInput, CommitOutcome, drain, commit_outcome}

-- The state of the process and of the database: the ledger is shared by all jobs.
pub record WorkerState (W J : Type 0) : Type 0 where
  pub world : W
  pub ledger : UsageLedger
  pub db : Database J

-- What a job is rejected with; the job queue runs a rejected job again.
pub data JobError (X : Type 0) : Type 0 where
  invalid_order : String → JobError X
  thrown : X → JobError X
  illegal : IllegalTaskTransitionError → JobError X

-- `DrizzleOutboxBus.publish`
unfoldable pub publish_row : {J : Type 0} → EventEnvelope → Database J → Database J
publish_row event db = record db { events = db.events ++ event_envelope_to_row event ∷ [] }

-- `for (const event of buffer.drain()) await outboxBus.publish(event)`
unfoldable pub publish_rows : {J : Type 0} → List EventEnvelope → Database J → Database J
publish_rows [] db = db
publish_rows (event ∷ events) db = publish_rows events (publish_row event db)

module _ {W X I O J : Type 0} (deps : OrchestratorDeps W X I O) (nested : Nested I)
    (add_job : WorkOrder I → String → J → J) where
  -- What a job ends with: the outcome of the commit, or none for an order without a task.
  abbrev pub JobResult : Type 0
  JobResult = Result (JobError X) (Option CommitOutcome) × WorkerState W J

  abbrev pub run_of : WorkerState W J → Run W
  run_of s = record { world = s.world; events = []; ledger = s.ledger }

  abbrev pub outcome_input :
      WorkOrder I → String → WorkOrderResult O → List EventEnvelope → CommitOutcomeInput I
  outcome_input order task_id result events = record {
    task_id = task_id;
    organization_id = order.organization_id;
    status = result.status;
    events = (drain events).0;
    order = order;
    actor = none;
  }

  abbrev pub committed :
      UsageLedger → Result IllegalTaskTransitionError CommitOutcome × Database J × W → JobResult
  committed ledger (ok outcome, db, w) =
      (ok (some outcome), record { world = w; ledger = ledger; db = db })
  committed ledger (err e, db, w) =
      (err (illegal e), record { world = w; ledger = ledger; db = db })

  -- From the result of the orchestrator on: an order without a task, and one with a task.
  abbrev pub settle_result :
      Option String → WorkOrder I → WorkOrderResult O → Run W → Database J → JobResult
  settle_result none order result run db = (
    ok none,
    record { world = run.world; ledger = run.ledger; db = publish_rows (drain run.events).0 db },
  )
  settle_result (some task_id) order result run db = committed run.ledger (
      commit_outcome deps.platform add_job (outcome_input order task_id result run.events) db
        run.world)

  -- What the orchestrator throws leaves the job without its events.
  abbrev pub settle_run :
      WorkOrder I → Result X (WorkOrderResult O) × Run W → Database J → JobResult
  settle_run order (ok result, run) db = settle_result order.task_id order result run db
  settle_run order (err x, run) db =
      (err (thrown x), record { world = run.world; ledger = run.ledger; db = db })

  abbrev pub parsed_job : Result String (WorkOrder I) → WorkerState W J → JobResult
  parsed_job (ok order) s = settle_run order (execute_work_order deps order (run_of s)) s.db
  parsed_job (err message) s = (err (invalid_order message), s)

  unfoldable pub handle_job : Value → WorkerState W J → JobResult
  handle_job payload s = parsed_job (parse_order nested payload) s
