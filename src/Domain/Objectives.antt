-- ===== src/Domain/Objectives.antt =====
-- packages/core-domain/src/objective.ts: objectives.
use donnav.Common.{ℕ, String, Option}
use donnav.Domain.Values.{Scope}

-- `OBJECTIVE_STATUSES`
pub data ObjectiveStatus : Type 0 where
  draft active blocked completed cancelled : ObjectiveStatus

-- `RISK_LEVELS`
pub data RiskLevel : Type 0 where
  low medium high critical : RiskLevel

pub record Objective : Type 0 where
  pub id : String
  pub scope : Scope
  pub requester_id : String
  pub owner_id : String
  pub requested_outcome : String
  pub definition_of_done : String
  pub status : ObjectiveStatus
  pub risk_level : RiskLevel
  pub project_id : Option String
  pub team_id : Option String
  pub due_at : Option ℕ
  pub completion_summary : Option String
