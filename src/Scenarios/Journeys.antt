-- ===== src/Scenarios/Journeys.antt =====
-- One task from its dispatch to its commit (apps/control-plane and apps/worker).
use donnav.Common.{
  Result, sym, subst, ◌∙◌, ℕ, String, [], ◌∷◌, ◌++◌, List, ◌≡◌, ◌≢◌, ◌⊎◌, refl, arith, eq_iff, none,
  some, ok, err, Option, get_or, string_eq,
}
use donnav.Domain.Values.{owner}
use donnav.Domain.Tasks.{TaskStatus, pending}
use donnav.Policy.Types.{human, PrincipalContext}
use donnav.Db.{TaskRow, Database}
use donnav.Orchestrator.Order.{WorkOrder}
use donnav.Orchestrator.Json.{order_value}
use donnav.Orchestrator.Execute.{execute_work_order}
use donnav.Control.Mappers.{build_work_order, WorkOrderHints, task_to_row, inserted_task}
use donnav.Control.Postgres.{Postgres}
use donnav.Control.Dispatch.{DispatchInput, dispatch}
use donnav.Worker.Casts.{parse_order}
use donnav.Worker.RoundTrip.{parse_order-order_value}
use donnav.Worker.TaskState.{find_row}
use donnav.Worker.Handler.{WorkerState, run_of, handle_job}
use donnav.Worker.HandlerLaws.{NotPending, handle_job-idle, handle_job-others}
use donnav.Journey.{
  made_task, made_row, made_event, with_rows, order_for, Queued, dispatch-all_or_nothing,
}
use donnav.Journey.Handover.{Handled, handle_job-dispatched}
use donnav.Scenarios.Commits.{platform}
use donnav.Scenarios.Orders.{deps, request, asked}
use donnav.Scenarios.Nested.{nested}

-- The jobs are their keys; nothing is refused.
abbrev pub server : Postgres (List String) String
server = record {
  refuses = λ insert db. none;
  add_job = λ identifier payload key jobs. ok (some "7", jobs ++ key ∷ []);
}

abbrev pub principal : PrincipalContext
principal = record {
  user_id = "ada";
  organization_id = "acme";
  role = owner;
  actor_kind = human;
  team_ids = [];
  project_ids = [];
}

abbrev hints : WorkOrderHints
hints = record {
  required_capabilities = [];
  prefers_human = none;
  needs_reasoning = none;
  reasoning_tier = none;
  needs_tools = none;
  needs_vision = none;
  require_local = none;
  min_context_tokens = none;
  model_request = some request;
}

abbrev pub input : DispatchInput
input = record {
  hints = hints;
  objective_id = "o1";
  goal = "mail";
  definition_of_done = "sent";
  required_authority = none;
}

abbrev empty : Database (List String)
empty = record { objectives = []; tasks = []; events = []; jobs = [] }

dispatch-all_or_nothing_example :
    ((x : String) × (dispatch platform nested server input principal empty 0
        ≡ (err x, empty, (made_event platform nested server input principal 0).1)))
    ⊎ ((id : Option String) × (jobs : List String) × Queued platform nested server input principal
          empty 0 id jobs
        × (dispatch platform nested server input principal empty 0 ≡ (
          ok (record {
            task = made_task platform nested server input principal 0;
            job_id = get_or id "";
          }),
          record (with_rows platform nested server input principal empty 0) { jobs = jobs },
          (made_event platform nested server input principal 0).1,
        )))
dispatch-all_or_nothing_example =
    dispatch-all_or_nothing platform nested server input principal empty 0

abbrev row : TaskRow
row = made_row platform nested server input principal 0

abbrev worker : WorkerState ℕ (List String)
worker = record {
  world = 3;
  ledger = [];
  db = record { objectives = []; tasks = row ∷ []; events = []; jobs = [] };
}

abbrev add_job : WorkOrder (Unit {0}) → String → List String → List String
add_job order key jobs = jobs ++ key ∷ []

named : principal.organization_id ≢ ""
named e = ground (arith, eq_iff "acme" "")

asking : request.messages ≢ []
asking e = ground arith

row_found : find_row row.id row.organization_id worker.db.tasks ≡ some row
unfolding find_row task_to_row inserted_task
row_found = refl

handle_job-dispatched_example :
    Handled deps nested add_job worker.db row
      (execute_work_order deps
        (order_for platform nested server input principal 0)
        (run_of deps nested add_job worker))
      (handle_job deps nested add_job
        (order_value nested (order_for platform nested server input principal 0))
        worker)
unfolding task_to_row inserted_task
handle_job-dispatched_example =
    handle_job-dispatched deps nested add_job server input principal 0 worker row named asking refl
      refl row_found refl

parse_order-order_value_example :
    parse_order nested (order_value nested asked)
    ≡ ok (record asked { actor = none; capability_input = none })
parse_order-order_value_example = parse_order-order_value nested asked named asking

-- The order of the task, as the worker reads it, and a table in which the task is completed.
abbrev task_order : WorkOrder (Unit {0})
task_order = order_for platform nested server input principal 0

abbrev settled : WorkerState ℕ (List String)
settled = record worker {
  db = record {
    objectives = [];
    tasks = record row { status = TaskStatus.completed } ∷ [];
    events = [];
    jobs = [];
  };
}

read_back : parse_order nested (order_value nested task_order) ≡ ok task_order
unfolding build_work_order
read_back = parse_order-order_value nested task_order named asking

abbrev accepted : WorkOrder (Unit {0}) → Result String (WorkOrder (Unit {0}))
accepted order = ok order

ok_injective : (a b : WorkOrder (Unit {0})) → accepted a ≡ accepted b → a ≡ b
ok_injective a b h = cc

as_read :
    (order : WorkOrder (Unit {0}))
    → parse_order nested (order_value nested task_order) ≡ ok order
    → task_order ≡ order
as_read order h = ok_injective task_order order (sym read_back ∙ h)

settled_row :
    (r : TaskRow) → find_row "uuid" "acme" settled.db.tasks ≡ some r → ¬ (r.status ≡ pending)
unfolding find_row task_to_row inserted_task
settled_row r f p = ground arith

task_order-NotPending : NotPending deps nested add_job settled.db task_order
unfolding build_work_order
task_order-NotPending = ("uuid", refl, settled_row)

handle_job-idle_example :
    (handle_job deps nested add_job (order_value nested task_order) settled).1.db ≡ settled.db
handle_job-idle_example =
    handle_job-idle deps nested add_job (order_value nested task_order) settled (λ order h.
      subst (NotPending deps nested add_job settled.db) (as_read order h) task_order-NotPending)

other_task : ¬ ((task_order.task_id ≡ some "t9") × (task_order.organization_id ≡ "acme"))
unfolding build_work_order
other_task h = ground (arith, eq_iff "uuid" "t9")

handle_job-others_example :
    find_row "t9" "acme"
      (handle_job deps nested add_job (order_value nested task_order) worker).1.db.tasks
    ≡ find_row "t9" "acme" worker.db.tasks
handle_job-others_example =
    handle_job-others deps nested add_job (order_value nested task_order) worker "t9" "acme"
      (λ order h.
        subst (λ o. ¬ ((o.task_id ≡ some "t9") × (o.organization_id ≡ "acme"))) (as_read order h)
          other_task)
