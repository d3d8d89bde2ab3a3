-- ===== src/Scenarios/Policy.antt =====
-- Policy decisions at a concrete input (packages/policy).
use donnav.Common.{true, [], ◌∷◌, ◌≡◌, ◌↔◌, ◌⊎◌, ◌≤◌, ◌<◌, none, some}
use donnav.Domain.Values.{level, routine_action, never_autonomous, team, team_lead}
use donnav.Policy.Types.{human, agent, PolicyReason, PolicyInput, allow}
use donnav.Policy.Engine.{evaluate}
use donnav.Policy.Laws.{
  MayAccess, Blocked, Passes, switches, ceiling, asked, evaluate-allow_iff, evaluate-reason_iff,
}

abbrev request : PolicyInput
request = record {
  principal = record {
    user_id = "ada";
    organization_id = "acme";
    role = team_lead;
    actor_kind = agent;
    team_ids = "sales" ∷ [];
    project_ids = [];
  };
  action = record {
    name = "send_mail";
    authority_level = routine_action;
    side_effecting = true;
    capability = none;
  };
  resource = record {
    organization_id = "acme";
    scope = team;
    owner_user_id = none;
    team_id = some "sales";
    project_id = none;
  };
  kill_switches = none;
  role_ceilings = none;
}

evaluate-allow_iff_example : ((evaluate request).effect ≡ allow) ↔ (
    Passes request
    × ((asked request ≤ level routine_action)
        ⊎ ((request.action.authority_level ≡ never_autonomous)
            × (request.principal.actor_kind ≡ human))))
evaluate-allow_iff_example = evaluate-allow_iff request

evaluate-reason_iff_example :
    let d = evaluate request in
    let tenant = request.resource.organization_id ≡ request.principal.organization_id in
    let access = MayAccess request.resource.scope request.principal request.resource in
    let blocked = Blocked request.action (switches request) in
    ((d.reason ≡ PolicyReason.cross_tenant) ↔ ¬ tenant)
    × ((d.reason ≡ PolicyReason.scope_denied) ↔ (tenant × (¬ access)))
    × ((d.reason ≡ PolicyReason.kill_switch) ↔ (tenant × access × blocked))
    × ((d.reason ≡ PolicyReason.insufficient_authority)
        ↔ (tenant × access × (¬ blocked) × (ceiling request < asked request)))
    × ((d.reason ≡ PolicyReason.never_autonomous) ↔ (
        Passes request
        × (request.action.authority_level ≡ never_autonomous)
        × (request.principal.actor_kind ≡ agent)))
evaluate-reason_iff_example = evaluate-reason_iff request
