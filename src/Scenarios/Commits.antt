-- ===== src/Scenarios/Commits.antt =====
-- Commits on a table with one task, of an order that failed (apps/worker/src/task-state.ts).
use donnav.Common.{
  ℕ, suc, String, true, List, [], ◌∷◌, ◌++◌, ◌≡◌, ◌+◌, refl, arith, none, some, string_eq,
}
use donnav.Domain.Tasks.{TaskStatus, pending, failed}
use donnav.Events.Create.{Platform}
use donnav.Orchestrator.Order.{WorkOrder, WorkOrderStatus}
use donnav.Domain.Values.{prepare}
use donnav.Domain.Objectives.{low}
use donnav.Db.{TaskRow, Database}
use donnav.Worker.TaskState.{CommitOutcomeInput, find_row, commit_outcome}
use donnav.Worker.TaskLaws.{expected, Settles, commit_outcome-applies}
use donnav.Worker.Deliveries.{row_of, deliver, deliver-retries, deliver-fails}

-- Every identifier is the same here, and the clock counts them.
abbrev pub platform : Platform ℕ
platform = record { random_uuid = λ w. ("uuid", suc w); now = λ w. w }

abbrev pub order : WorkOrder (Unit {0})
order = record {
  organization_id = "acme";
  task_id = some "t1";
  correlation_id = none;
  actor = none;
  required_capabilities = [];
  prefers_human = none;
  needs_reasoning = some true;
  reasoning_tier = none;
  needs_tools = none;
  needs_vision = none;
  require_local = none;
  min_context_tokens = none;
  model_request = none;
  capability_input = none;
  policy = none;
  budget = none;
}

abbrev row : TaskStatus → TaskRow
row status = record {
  id = "t1";
  organization_id = "acme";
  objective_id = "o1";
  parent_task_id = none;
  goal = "mail";
  definition_of_done = "sent";
  status = status;
  execution_class = none;
  required_capabilities = [];
  required_authority = prepare;
  risk_level = low;
  approval_policy = none;
  idempotency_key = none;
  retry_count = 1;
  max_retries = 3;
  lease_owner = none;
  lease_expires_at = none;
  heartbeat_at = none;
  checkpoint = none;
  created_at = 0;
  updated_at = 0;
}

abbrev database : TaskStatus → Database (List String)
database status = record { objectives = []; tasks = row status ∷ []; events = []; jobs = [] }

-- The jobs are their keys.
abbrev add_job : WorkOrder (Unit {0}) → String → List String → List String
add_job o key jobs = jobs ++ key ∷ []

abbrev outcome : WorkOrderStatus → CommitOutcomeInput (Unit {0})
outcome status = record {
  task_id = "t1";
  organization_id = "acme";
  status = status;
  events = [];
  order = order;
  actor = none;
}

abbrev failure : CommitOutcomeInput (Unit {0})
failure = outcome WorkOrderStatus.failed

commit_outcome-applies_example :
    Settles platform add_job failure
      (database pending)
      0
      (row pending)
      (expected WorkOrderStatus.failed (row pending))
      (commit_outcome platform add_job failure (database pending) 0)
unfolding find_row
commit_outcome-applies_example =
    commit_outcome-applies platform add_job failure (database pending) 0 (row pending) refl refl

deliver-retries_example :
    (row' : TaskRow) × (row_of platform add_job failure
        (deliver platform add_job failure 2 (database pending) 0).0
      ≡ some row')
    × (row'.status ≡ pending)
    × (row'.retry_count ≡ (row pending).retry_count + 2)
    × (row'.max_retries ≡ (row pending).max_retries)
unfolding find_row
deliver-retries_example =
    deliver-retries platform add_job failure 2 (database pending) 0 (row pending) refl refl refl
      (omega arith)

deliver-fails_example :
    (row' : TaskRow) × (row_of platform add_job failure
        (deliver platform add_job failure 3 (database pending) 0).0
      ≡ some row')
    × (row'.status ≡ failed)
    × (row'.retry_count ≡ (row pending).max_retries)
unfolding find_row
deliver-fails_example =
    deliver-fails platform add_job failure 2 (database pending) 0 (row pending) refl refl refl
      (omega arith)
