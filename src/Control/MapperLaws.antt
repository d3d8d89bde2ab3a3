-- ===== src/Control/MapperLaws.antt =====
-- What apps/control-plane/src/db/mappers.ts keeps of objectives and tasks on their way through a row.
use donnav.Common.{ℕ, String, List, ◌≡◌, ◌↔◌, arith, none, refl}
use donnav.Domain.Objectives.{Objective}
use donnav.Domain.Tasks.{Task}
use donnav.Control.Mappers.{
  team_of, objective_to_row, inserted_objective, row_to_objective, task_to_row, inserted_task,
  row_to_task,
}

-- What an objective is after it was inserted and read.
abbrev pub stored_objective : ℕ → String → Objective → Objective
stored_objective now organization_id o =
    row_to_objective (inserted_objective now (objective_to_row o organization_id))

abbrev pub stored_task : ℕ → String → List String → Task → Task
stored_task now organization_id capabilities t =
    row_to_task (inserted_task now (task_to_row t organization_id capabilities))

-- An objective is read as it was inserted, but that the team is kept for the scope of a team only;
-- so it comes back whole exactly when it has that scope or no team.
pub row_to_objective-objective_to_row :
    (now : ℕ) (organization_id : String) (o : Objective)
    → (stored_objective now organization_id o ≡ record o { team_id = team_of o.scope o.team_id })
      × ((stored_objective now organization_id o ≡ o) ↔ (team_of o.scope o.team_id ≡ o.team_id))
unfolding row_to_objective inserted_objective objective_to_row
row_to_objective-objective_to_row now organization_id o = (refl, ground arith)

-- A task is read as it was inserted, but without its parent and without its idempotency key; so it
-- comes back whole exactly when it has neither, whatever the capabilities and the organization.
pub row_to_task-task_to_row :
    (now : ℕ) (organization_id : String) (capabilities : List String) (t : Task)
    → (stored_task now organization_id capabilities t
        ≡ record t { parent_task_id = none; idempotency_key = none })
      × ((stored_task now organization_id capabilities t ≡ t)
          ↔ ((t.parent_task_id ≡ none) × (t.idempotency_key ≡ none)))
unfolding row_to_task inserted_task task_to_row
row_to_task-task_to_row now organization_id capabilities t = (refl, ground arith)
