-- ===== src/Scenarios/Domain.antt =====
-- Tasks, costs, health and flags at concrete values (packages/core-domain, cost-governor, config).
use donnav.Common.{
  string_eq, ℕ, String, Bool, false, List, [], ◌∷◌, ◌≡◌, refl, ◌+◌, ◌≤◌, arith, none,
}
use donnav.Domain.Values.{routine_action}
use donnav.Domain.Tasks.{TaskStatus, pending, planned, assigned, running, completed, failed, Task}
use donnav.Domain.Machine.{can_transition, allowed_transitions, transition}
use donnav.Domain.Runs.{run, retries, run-retries}
use donnav.Cost.Summary.{ModelEvaluation}

abbrev task_at : TaskStatus → ℕ → Task
task_at status retry_count = record {
  id = "t1";
  objective_id = "o1";
  parent_task_id = none;
  goal = "write the report";
  definition_of_done = "the report is sent";
  status = status;
  execution_class = none;
  required_authority = routine_action;
  idempotency_key = none;
  retry_count = retry_count;
  max_retries = 2;
}

abbrev retried_path : List TaskStatus
retried_path = pending ∷ planned ∷ assigned ∷ running ∷ completed ∷ []

run-retries_example :
    ((task_at completed 2).max_retries ≡ (task_at failed 1).max_retries)
    × ((task_at completed 2).retry_count
        ≡ (task_at failed 1).retry_count + retries failed retried_path)
    × ((task_at completed 2).retry_count ≤ (task_at completed 2).max_retries)
    × ((task_at failed 1).retry_count + retries failed retried_path
        ≤ (task_at failed 1).max_retries)
unfolding run transition can_transition allowed_transitions
run-retries_example =
    run-retries retried_path (task_at failed 1) (task_at completed 2) refl (omega arith)

abbrev evaluation : String → Bool → ModelEvaluation
evaluation model_id accepted = record {
  task_class = "draft";
  model_id = model_id;
  reasoning_tier = 4;
  quality_score = 80;
  accepted = accepted;
  corrected = false;
  cost_usd = 9;
  latency_ms = 20;
}
