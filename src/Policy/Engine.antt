-- ===== src/Policy/Engine.antt =====
-- packages/policy/src/engine.ts: `evaluate`, the checks in the order of the source.
use Prim.Native.String.{◌++◌}
use donnav.Common.{
  String, Bool, true, false, Option, none, some, includes, ◌==◌, string_eq, nat_eq, leb, get_or,
  if◌then◌else◌, not,
}
use donnav.Domain.Values.{
  AuthorityLevel, level, observe, prepare, routine_action, approval_required, never_autonomous,
  Scope, private_scope, project, team, organization, scope_name, role_name,
}
use donnav.Policy.Types.{
  ActorKind, human, agent, PrincipalContext, ResourceDescriptor, PolicyEffect, allow, deny,
  requires_approval, PolicyReason, cross_tenant, scope_denied, insufficient_authority, kill_switch,
  PolicyDecision, PolicyInput, no_kill_switches, is_blocked_by_kill_switch, default_role_ceilings,
}

abbrev decide : PolicyEffect → PolicyReason → String → PolicyDecision
decide effect reason message = record { effect = effect; reason = reason; message = message }

-- An optional reference that is present and that the test accepts.
abbrev pub present_and : Option String → (String → Bool) → Bool
present_and none test = false
present_and (some ref) test = test ref

abbrev pub scope_access : Scope → PrincipalContext → ResourceDescriptor → Bool
scope_access organization principal resource = true
scope_access team principal resource = present_and resource.team_id (includes principal.team_ids)
scope_access project principal resource =
    present_and resource.project_id (includes principal.project_ids)
scope_access private_scope principal resource =
    present_and resource.owner_user_id (λ ref. ref == principal.user_id)

unfoldable pub has_scope_access : PrincipalContext → ResourceDescriptor → Bool
has_scope_access principal resource = scope_access resource.scope principal resource

-- A level as a template literal prints it.
abbrev level_text : AuthorityLevel → String
level_text observe = "0"
level_text prepare = "1"
level_text routine_action = "2"
level_text approval_required = "3"
level_text never_autonomous = "4"

abbrev is_human : ActorKind → Bool
is_human human = true
is_human agent = false

unfoldable pub evaluate : PolicyInput → PolicyDecision
evaluate input =
    let kill_switches = get_or input.kill_switches no_kill_switches in
    let role_ceilings = get_or input.role_ceilings default_role_ceilings in
    if not (resource.organization_id == principal.organization_id)
    then decide deny cross_tenant "Resource belongs to a different organization."
    else if not (has_scope_access principal resource)
    then decide deny scope_denied
        ("Principal lacks access to " ++ scope_name resource.scope ++ " resource.")
    else if is_blocked_by_kill_switch action kill_switches
    then decide deny kill_switch ("Action \"" ++ action.name ++ "\" is paused by a kill switch.")
    else if not (leb (level action.authority_level) (level (role_ceilings principal.role)))
    then decide deny insufficient_authority (
        "Role \""
        ++ role_name principal.role
        ++ "\" may not attempt an action at authority level "
        ++ level_text action.authority_level
        ++ ".")
    else if level action.authority_level == level never_autonomous
    then if is_human principal.actor_kind
      then decide allow PolicyReason.ok
          "Permitted: direct human execution of a never-autonomous action."
      else decide deny PolicyReason.never_autonomous
          "This action always requires direct human execution."
    else if level action.authority_level == level approval_required
    then decide requires_approval PolicyReason.approval_required
        "This action requires explicit approval."
    else decide allow PolicyReason.ok "Permitted."
  where
    open input use {principal, action, resource}
