-- ===== src/Control/Objectives.antt =====
-- apps/control-plane/src/services: objective-service.ts and drizzle-objective-service.ts.
use donnav.Common.{
  String, Bool, List, [], ◌∷◌, ◌&&◌, Option, none, some, Result, ok, err, ◌>>=◌, ◌==◌, string_eq,
  if◌then◌else◌,
}
use donnav.Common.Dict.{Dict, get, put}
use donnav.Domain.Values.{Scope}
use donnav.Domain.Events.{objective_created, EventEnvelope}
use donnav.Domain.Objectives.{draft, RiskLevel, Objective}
use donnav.Policy.Types.{PrincipalContext}
use donnav.Db.{ObjectiveRow, Database, event_envelope_to_row}
use donnav.Events.Create.{Platform, CreateEventInput, create_event}
use donnav.Control.Mappers.{objective_to_row, row_to_objective}
use donnav.Control.Postgres.{Postgres, insert_objective, insert_event, transaction}
use donnav.Control.Dispatch.{actor_of}

pub record CreateObjectiveInput : Type 0 where
  pub requested_outcome : String
  pub definition_of_done : String
  pub scope : Scope
  pub risk_level : RiskLevel
  pub project_id : Option String
  pub team_id : Option String

-- The objective, of the identifier that `randomUUID` gave.
abbrev pub new_objective : String → CreateObjectiveInput → PrincipalContext → Objective
new_objective id input principal = record {
  id = id;
  scope = input.scope;
  requester_id = principal.user_id;
  owner_id = principal.user_id;
  requested_outcome = input.requested_outcome;
  definition_of_done = input.definition_of_done;
  status = draft;
  risk_level = input.risk_level;
  project_id = input.project_id;
  team_id = input.team_id;
  due_at = none;
  completion_summary = none;
}

-- The input of the event `objective.created`.
abbrev pub objective_event : String → PrincipalContext → CreateEventInput
objective_event id principal = record {
  type = objective_created;
  organization_id = principal.organization_id;
  actor = actor_of principal;
  objective_id = some id;
  task_id = none;
  correlation_id = none;
  causation_id = none;
  payload_ref = none;
  now = none;
}

-- `InMemoryObjectiveService`: its map holds the organization next to each objective.
pub record StoredObjective : Type 0 where
  pub objective : Objective
  pub organization_id : String

abbrev pub ObjectiveStore : Type 0
ObjectiveStore = Dict String StoredObjective

abbrev of_organization : String → Option StoredObjective → Option Objective
of_organization organization_id none = none
of_organization organization_id (some entry) =
    if entry.organization_id == organization_id then some entry.objective else none

-- `InMemoryObjectiveService.get`
unfoldable pub get_stored : String → String → ObjectiveStore → Option Objective
get_stored id organization_id store = of_organization organization_id (get id store)

module _ {W X : Type 0} (platform : Platform W)
    (publish : EventEnvelope → W → Result X (Unit {0}) × W) where
  abbrev after_publish : Result X (Unit {0}) → Objective → Result X Objective
  after_publish (ok u) objective = ok objective
  after_publish (err x) objective = err x

  -- `InMemoryObjectiveService.create`, over the bus that it is given.
  unfoldable pub create_stored :
      CreateObjectiveInput
      → PrincipalContext
      → ObjectiveStore
      → W
      → Result X Objective × ObjectiveStore × W
  create_stored input principal store w =
      let (id, w₁) = platform.random_uuid w in
      let objective = new_objective id input principal in
      let stored =
        put id (record { objective = objective; organization_id = principal.organization_id })
          store in
      let (event, w₂) = create_event platform (objective_event id principal) w₁ in
      let (published, w₃) = publish event w₂ in (after_publish published objective, stored, w₃)

-- `where id = … and organization_id = …`
abbrev pub is_objective_row : String → String → ObjectiveRow → Bool
is_objective_row id organization_id row = (row.id == id) && (row.organization_id == organization_id)

unfoldable pub find_objective : String → String → List ObjectiveRow → Option ObjectiveRow
find_objective id organization_id [] = none
find_objective id organization_id (row ∷ rows) =
    let rest = find_objective id organization_id rows in
    if is_objective_row id organization_id row then some row else rest

abbrev pub objective_of_row : Option ObjectiveRow → Option Objective
objective_of_row none = none
objective_of_row (some row) = some (row_to_objective row)

-- `DrizzleObjectiveService.get`
unfoldable pub get_objective : {J : Type 0} → String → String → Database J → Option Objective
get_objective id organization_id db =
    objective_of_row (find_objective id organization_id db.objectives)

module _ {W J X : Type 0} (platform : Platform W) (server : Postgres J X) where
  -- The body of the transaction.
  unfoldable pub write_objective :
      Objective
      → PrincipalContext
      → EventEnvelope
      → W
      → Database J
      → Result X (Objective × Database J)
  write_objective objective principal event w db = do
    with_objective ←
        insert_objective server (platform.now w)
          (objective_to_row objective principal.organization_id) db
    with_event ← insert_event server (event_envelope_to_row event) with_objective
    ok (objective, with_event)

  -- `DrizzleObjectiveService.create`
  unfoldable pub create_objective :
      CreateObjectiveInput → PrincipalContext → Database J → W → Result X Objective × Database J × W
  create_objective input principal db w =
      let (id, w₁) = platform.random_uuid w in
      let objective = new_objective id input principal in
      let (event, w₂) = create_event platform (objective_event id principal) w₁ in
      let (result, db') = transaction (write_objective objective principal event w₂ db) db in
      (result, db', w₂)
