-- ===== src/Scenarios/Services.antt =====
-- Objectives, the routes of the server and the start of a process (apps/control-plane).
use donnav.Common.{
  ◌&&◌, suc, ℕ, String, [], List, ◌≡◌, ◌↔◌, ◌⊎◌, refl, subst, Bool, true, false, Result, Option,
  none, some, ok, err, string_eq, ◌==◌, if◌then◌else◌,
}
use donnav.Common.Json.{undefined, text}
use donnav.Domain.Values.{team}
use donnav.Domain.Objectives.{low, Objective}
use donnav.Policy.Laws.{MayAccess}
use donnav.Db.{Database}
use donnav.Control.Mappers.{team_of}
use donnav.Control.Objectives.{
  CreateObjectiveInput, write_objective, create_objective, find_objective, get_objective,
}
use donnav.Control.ObjectiveLaws.{made_objective, get_objective-create_objective}
use donnav.Control.Requests.{ServerDeps, authenticated, DispatchTaskBody, found, failure}
use donnav.Control.Server.{get_objective_route, post_task, read_resource}
use donnav.Control.ServerLaws.{get_objective_route-found_iff, post_task-team}
use donnav.Common.Trim.{trim, lowers_to}
use donnav.Control.Startup.{
  Env, StartupConfig, Missing, production, resolve_app_env, resolve_startup_config,
}
use donnav.Control.StartupLaws.{Complete, Secured, resolve_startup_config-closed}
use donnav.Scenarios.Commits.{platform}
use donnav.Scenarios.Journeys.{server, principal}

abbrev sales : CreateObjectiveInput
sales = record {
  requested_outcome = "sell";
  definition_of_done = "sold";
  scope = team;
  risk_level = low;
  project_id = none;
  team_id = some "sales";
}

abbrev empty : Database (List String)
empty = record { objectives = []; tasks = []; events = []; jobs = [] }

abbrev objective : Objective
objective = made_objective platform server sales principal 0

was_created : (create_objective platform server sales principal empty 0).0 ≡ ok objective
unfolding create_objective write_objective
was_created = refl

fresh : find_objective objective.id principal.organization_id empty.objectives ≡ none
unfolding find_objective
fresh = refl

abbrev after : Database (List String)
after = (create_objective platform server sales principal empty 0).1

get_objective-create_objective_example : get_objective "uuid" "acme" after ≡ (
    if (objective.id == "uuid") && (principal.organization_id == "acme")
    then some (record objective { team_id = team_of objective.scope objective.team_id })
    else get_objective "uuid" "acme" empty)
get_objective-create_objective_example =
    get_objective-create_objective platform server sales principal empty 0 objective "uuid" "acme"
      was_created fresh

-- A server whose one objective is that of a team, and that counts its dispatches.
abbrev services : ServerDeps ℕ String
services = record {
  create_objective = λ input p s. (err "full", s);
  get_objective = λ id org s. ok (if org == "acme" then some objective else none);
  dispatch = λ input p s. (err "queue", suc s);
}

get_objective_route-found_iff_example :
    let reply = (get_objective_route services (authenticated principal) "o1" 0).0 in
    ((reply ≡ ok (found objective)) ↔ (
      (services.get_objective "o1" principal.organization_id 0 ≡ ok (some objective))
      × MayAccess objective.scope principal (read_resource services principal objective)))
    × (((seen : Objective) × (reply ≡ ok (found seen)))
        ⊎ ((reply ≡ ok (failure 404 "not_found"))
            ⊎ ((x : String) × (services.get_objective "o1" principal.organization_id 0 ≡ err x)
                × (reply ≡ err x))))
get_objective_route-found_iff_example =
    get_objective_route-found_iff services principal "o1" 0 objective

abbrev body : DispatchTaskBody
body = record {
  goal = text "mail";
  definition_of_done = text "sent";
  required_capabilities = undefined;
  prefers_human = none;
  needs_reasoning = none;
  reasoning_tier = none;
  needs_tools = none;
  needs_vision = none;
  require_local = none;
  min_context_tokens = none;
  model_request = none;
}

abbrev answer : Option Objective → Result String (Option Objective)
answer o = ok o

held :
    (own : Bool) (o : Objective)
    → answer (if own then some objective else none) ≡ ok (some o)
    → o.scope ≡ team
held true o h = let same : objective ≡ o = cc in subst (λ x. x.scope ≡ team) same refl
held false o h = cc

of_team :
    (org : String) (o : Objective)
    → services.get_objective "o1" org 0 ≡ ok (some o)
    → o.scope ≡ team
of_team org o h = held (org == "acme") o h

post_task-team_example : (post_task services (authenticated principal) "o1" body 0).1 ≡ 0
post_task-team_example = post_task-team services (authenticated principal) "o1" body 0 of_team

-- An environment without any variable.
abbrev bare : Env
bare name = none

unset : resolve_app_env bare ≡ production
unfolding resolve_app_env trim lowers_to
unset = refl

resolve_startup_config-closed_example :
    (Complete bare × (c : StartupConfig) × (resolve_startup_config bare ≡ ok c) × Secured bare c)
    ⊎ ((¬ Complete bare)
        × (m : Missing) × (resolve_startup_config bare ≡ err m)
        × (¬ (m.missing ≡ [])))
resolve_startup_config-closed_example = resolve_startup_config-closed bare unset
