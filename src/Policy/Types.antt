-- ===== src/Policy/Types.antt =====
-- packages/policy/src/types.ts, kill-switches.ts and roles.ts.
use donnav.Common.{
  ℕ, String, Bool, true, false, List, [], ◌≡◌, ◌↔◌, Option, none, some, includes, Eq, nat_beq,
  if◌then◌else◌, not, arith,
}
use donnav.Domain.Values.{
  AuthorityLevel, Role, Scope, owner, admin, executive, team_lead, team_member, contractor,
}

pub data ActorKind : Type 0 where
  human agent : ActorKind

pub record PrincipalContext : Type 0 where
  pub user_id : String
  pub organization_id : String
  pub role : Role
  pub actor_kind : ActorKind
  pub team_ids : List String
  pub project_ids : List String

pub data CapabilityCategory : Type 0 where
  outbound_comms browser_actions deployments api_spend local_compute : CapabilityCategory

abbrev pub category_index : CapabilityCategory → ℕ
category_index outbound_comms = 0
category_index browser_actions = 1
category_index deployments = 2
category_index api_spend = 3
category_index local_compute = 4

pub category_beq_iff :
    (a b : CapabilityCategory) → (nat_beq (category_index a) (category_index b) ≡ true) ↔ (a ≡ b)
category_beq_iff a b = ground arith

instance abbrev pub category_eq : Eq CapabilityCategory
category_eq = record {
  same = λ a b. nat_beq (category_index a) (category_index b);
  same_iff = category_beq_iff;
}

pub record ActionDescriptor : Type 0 where
  pub name : String
  pub authority_level : AuthorityLevel
  pub side_effecting : Bool
  pub capability : Option CapabilityCategory

pub record ResourceDescriptor : Type 0 where
  pub organization_id : String
  pub scope : Scope
  pub owner_user_id : Option String
  pub team_id : Option String
  pub project_id : Option String

pub record KillSwitchState : Type 0 where
  pub global_pause : Bool
  pub disabled_capabilities : List CapabilityCategory

pub data PolicyEffect : Type 0 where
  allow deny requires_approval : PolicyEffect

pub data PolicyReason : Type 0 where
  ok approval_required cross_tenant scope_denied insufficient_authority : PolicyReason
  never_autonomous kill_switch : PolicyReason

pub record PolicyDecision : Type 0 where
  pub effect : PolicyEffect
  pub reason : PolicyReason
  pub message : String

pub record PolicyInput : Type 0 where
  pub principal : PrincipalContext
  pub action : ActionDescriptor
  pub resource : ResourceDescriptor
  pub kill_switches : Option KillSwitchState
  pub role_ceilings : Option (Role → AuthorityLevel)

-- kill-switches.ts: `NO_KILL_SWITCHES`
abbrev pub no_kill_switches : KillSwitchState
no_kill_switches = record { global_pause = false; disabled_capabilities = [] }

-- `capability !== undefined && disabledCapabilities.includes(capability)`
abbrev pub is_disabled : Option CapabilityCategory → List CapabilityCategory → Bool
is_disabled none disabled = false
is_disabled (some c) disabled = includes disabled c

unfoldable pub is_blocked_by_kill_switch : ActionDescriptor → KillSwitchState → Bool
is_blocked_by_kill_switch action state =
    if not action.side_effecting
    then false
    else if state.global_pause
    then true
    else is_disabled action.capability state.disabled_capabilities

-- roles.ts: `DEFAULT_ROLE_CEILINGS`
abbrev pub default_role_ceilings : Role → AuthorityLevel
default_role_ceilings owner = AuthorityLevel.never_autonomous
default_role_ceilings admin = AuthorityLevel.never_autonomous
default_role_ceilings executive = AuthorityLevel.approval_required
default_role_ceilings team_lead = AuthorityLevel.approval_required
default_role_ceilings team_member = AuthorityLevel.routine_action
default_role_ceilings contractor = AuthorityLevel.prepare
