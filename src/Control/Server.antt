-- ===== src/Control/Server.antt =====
-- apps/control-plane/src/server.ts: the routes for objectives and tasks, and actions.ts. The web
-- framework is not modelled: a route gets the outcome of authentication and the body of the
-- request, and gives a reply. The services are parameters over the state of the server.
use donnav.Common.{ℕ, String, List, Option, none, some, get_or, Result, ok, err}
use donnav.Domain.Values.{organization}
use donnav.Domain.Objectives.{low, Objective}
use donnav.Policy.Types.{
  PrincipalContext, ResourceDescriptor, PolicyEffect, allow, deny, requires_approval,
  PolicyDecision,
}
use donnav.Policy.Engine.{evaluate}
use donnav.Control.Objectives.{CreateObjectiveInput}
use donnav.Control.Dispatch.{DispatchInput, DispatchResult}
use donnav.Control.Requests.{
  objective_create_action, objective_read_action, task_dispatch_action, AuthOutcome, Reply,
  CreateObjectiveBody, DispatchTaskBody, ServerDeps, as_text, as_string_array, asks, authenticated,
  refused, created, found, queued, failure, policy_denied, approval_required,
}

module _ {S X : Type 0} (deps : ServerDeps S X) where
  abbrev pub Response : Type 0
  Response = Result X Reply × S

  abbrev pub reply_failure : ℕ → String → S → Response
  reply_failure status error s = (ok (failure status error), s)

  -- The two replies to a decision that does not allow, and what is done where it does.
  abbrev pub gated : PolicyDecision → PolicyEffect → Response → S → Response
  gated decision deny allowed s = (ok (policy_denied decision.reason decision.message), s)
  gated decision requires_approval allowed s = (ok (approval_required decision.reason), s)
  gated decision allow allowed s = allowed

  -- `POST /objectives`: the resource that is asked for.
  abbrev pub new_resource : PrincipalContext → CreateObjectiveBody → ResourceDescriptor
  new_resource principal body = record {
    organization_id = principal.organization_id;
    scope = get_or body.scope organization;
    owner_user_id = some principal.user_id;
    team_id = body.team_id;
    project_id = body.project_id;
  }

  abbrev pub create_input : String → String → CreateObjectiveBody → CreateObjectiveInput
  create_input requested_outcome definition_of_done body = record {
    requested_outcome = requested_outcome;
    definition_of_done = definition_of_done;
    scope = get_or body.scope organization;
    risk_level = get_or body.risk_level low;
    project_id = body.project_id;
    team_id = body.team_id;
  }

  abbrev pub created_reply : Result X Objective × S → Response
  created_reply (ok objective, s) = (ok (created objective), s)
  created_reply (err x, s) = (err x, s)

  abbrev pub create_checked :
      Option String → Option String → PrincipalContext → CreateObjectiveBody → S → Response
  create_checked (some requested_outcome) (some definition_of_done) principal body s =
      let decision =
        evaluate (asks principal objective_create_action (new_resource principal body)) in
      gated decision decision.effect
        (created_reply (
          deps.create_objective (create_input requested_outcome definition_of_done body) principal
            s))
        s
  create_checked _ _ principal body s =
      reply_failure 400 "requestedOutcome and definitionOfDone are required" s

  unfoldable pub post_objective : AuthOutcome → CreateObjectiveBody → S → Response
  post_objective (refused status error) body s = reply_failure status error s
  post_objective (authenticated principal) body s =
      create_checked (as_text body.requested_outcome) (as_text body.definition_of_done) principal
        body s

  -- `GET /objectives/:id`
  abbrev pub read_resource : PrincipalContext → Objective → ResourceDescriptor
  read_resource principal objective = record {
    organization_id = principal.organization_id;
    scope = objective.scope;
    owner_user_id = some objective.owner_id;
    team_id = objective.team_id;
    project_id = objective.project_id;
  }

  abbrev pub read_allowed : PolicyEffect → Objective → S → Response
  read_allowed allow objective s = (ok (found objective), s)
  read_allowed _ objective s = reply_failure 404 "not_found" s

  abbrev pub read_found : PrincipalContext → Result X (Option Objective) → S → Response
  read_found principal (err x) s = (err x, s)
  read_found principal (ok none) s = reply_failure 404 "not_found" s
  read_found principal (ok (some objective)) s =
      let decision =
        evaluate (asks principal objective_read_action (read_resource principal objective)) in
      read_allowed decision.effect objective s

  unfoldable pub get_objective_route : AuthOutcome → String → S → Response
  get_objective_route (refused status error) id s = reply_failure status error s
  get_objective_route (authenticated principal) id s =
      read_found principal (deps.get_objective id principal.organization_id s) s

  -- `POST /objectives/:id/tasks`: the source gives the resource no team.
  abbrev pub dispatch_resource : PrincipalContext → Objective → ResourceDescriptor
  dispatch_resource principal objective = record {
    organization_id = principal.organization_id;
    scope = objective.scope;
    owner_user_id = some objective.owner_id;
    team_id = none;
    project_id = objective.project_id;
  }

  abbrev pub dispatch_input :
      String → String → String → List String → DispatchTaskBody → DispatchInput
  dispatch_input id goal definition_of_done required_capabilities body = record {
    hints = record {
      required_capabilities = required_capabilities;
      prefers_human = body.prefers_human;
      needs_reasoning = body.needs_reasoning;
      reasoning_tier = body.reasoning_tier;
      needs_tools = body.needs_tools;
      needs_vision = body.needs_vision;
      require_local = body.require_local;
      min_context_tokens = body.min_context_tokens;
      model_request = body.model_request;
    };
    objective_id = id;
    goal = goal;
    definition_of_done = definition_of_done;
    required_authority = none;
  }

  abbrev pub queued_reply : Result X DispatchResult × S → Response
  queued_reply (ok result, s) = (ok (queued result), s)
  queued_reply (err x, s) = (err x, s)

  -- The body that was checked, against the objective.
  abbrev pub dispatch_gated : PrincipalContext → Objective → DispatchInput → S → Response
  dispatch_gated principal objective input s =
      let decision =
        evaluate (asks principal task_dispatch_action (dispatch_resource principal objective)) in
      gated decision decision.effect (queued_reply (deps.dispatch input principal s)) s

  abbrev pub with_capabilities :
      Option (List String)
      → String
      → String
      → String
      → PrincipalContext
      → Objective
      → DispatchTaskBody
      → S
      → Response
  with_capabilities none id goal definition_of_done principal objective body s =
      reply_failure 400 "requiredCapabilities must be an array of strings" s
  with_capabilities (some capabilities) id goal definition_of_done principal objective body s =
      dispatch_gated principal objective
        (dispatch_input id goal definition_of_done capabilities body) s

  abbrev pub dispatch_checked :
      Option String
      → Option String
      → String
      → PrincipalContext
      → Objective
      → DispatchTaskBody
      → S
      → Response
  dispatch_checked (some goal) (some definition_of_done) id principal objective body s =
      with_capabilities (as_string_array body.required_capabilities) id goal definition_of_done
        principal objective body s
  dispatch_checked _ _ id principal objective body s =
      reply_failure 400 "goal and definitionOfDone are required" s

  abbrev pub dispatch_found :
      Result X (Option Objective) → String → PrincipalContext → DispatchTaskBody → S → Response
  dispatch_found (err x) id principal body s = (err x, s)
  dispatch_found (ok none) id principal body s = reply_failure 404 "objective_not_found" s
  dispatch_found (ok (some objective)) id principal body s =
      dispatch_checked (as_text body.goal) (as_text body.definition_of_done) id principal objective
        body s

  unfoldable pub post_task : AuthOutcome → String → DispatchTaskBody → S → Response
  post_task (refused status error) id body s = reply_failure status error s
  post_task (authenticated principal) id body s =
      dispatch_found (deps.get_objective id principal.organization_id s) id principal body s
