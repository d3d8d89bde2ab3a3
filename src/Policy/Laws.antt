-- ===== src/Policy/Laws.antt =====
-- The decision of packages/policy/src/engine.ts against an independent description of it.
use donnav.Common.{
  ℕ, String, Bool, true, false, List, ◌≡◌, ◌↔◌, ◌&&◌, ◌⊎◌, ◌≤◌, ◌<◌, refl, arith, false_iff, Option,
  none, some, includes, includes_iff, In, ◌==◌, string_eq, nat_eq, leb, get_or, eq_iff, not,
}
use donnav.Domain.Values.{
  level, routine_action, approval_required, never_autonomous, Scope, private_scope, project, team,
  organization,
}
use donnav.Policy.Types.{
  human, agent, PrincipalContext, ActionDescriptor, ResourceDescriptor, allow, deny,
  requires_approval, CapabilityCategory, category_eq, KillSwitchState, PolicyInput,
  no_kill_switches, is_disabled, is_blocked_by_kill_switch, default_role_ceilings, PolicyReason,
}
use donnav.Policy.Engine.{has_scope_access, scope_access, present_and, evaluate}

-- `x` is present and occurs in the list.
abbrev Names : Option String → List String → Type 0
Names none xs = ⊥
Names (some x) xs = In x xs

-- What each scope demands of a principal.
abbrev pub MayAccess : Scope → PrincipalContext → ResourceDescriptor → Type 0
MayAccess organization p r = Unit
MayAccess team p r = Names r.team_id p.team_ids
MayAccess project p r = Names r.project_id p.project_ids
MayAccess private_scope p r = r.owner_user_id ≡ some p.user_id

Names-iff :
    (o : Option String) (xs : List String) → (present_and o (includes xs) ≡ true) ↔ Names o xs
Names-iff none xs = ground arith
Names-iff (some x) xs = includes_iff xs x

owned_iff :
    (o : Option String) (user : String)
    → (present_and o (λ ref. ref == user) ≡ true) ↔ (o ≡ some user)
owned_iff none user = ground arith
owned_iff (some x) user = ground (arith, eq_iff x user)

scope_access_iff :
    (s : Scope) (p : PrincipalContext) (r : ResourceDescriptor)
    → (scope_access s p r ≡ true) ↔ MayAccess s p r
scope_access_iff organization p r = (λ h. tt, λ h. refl)
scope_access_iff team p r = Names-iff r.team_id p.team_ids
scope_access_iff project p r = Names-iff r.project_id p.project_ids
scope_access_iff private_scope p r = owned_iff r.owner_user_id p.user_id

-- The test for scope access accepts exactly what the scope demands: the organization scope
-- everyone, the team and project scopes their members, the private scope its owner alone.
pub has_scope_access_iff :
    (p : PrincipalContext) (r : ResourceDescriptor)
    → (has_scope_access p r ≡ true) ↔ MayAccess r.scope p r
unfolding has_scope_access
has_scope_access_iff p r = scope_access_iff r.scope p r

abbrev pub Disables : List CapabilityCategory → Option CapabilityCategory → Type 0
Disables disabled none = ⊥
Disables disabled (some c) = In c disabled

-- What a kill switch holds back: an action with side effects, under a global pause or in a
-- category that is disabled.
abbrev pub Blocked : ActionDescriptor → KillSwitchState → Type 0
Blocked a k =
    (a.side_effecting ≡ true)
    × ((k.global_pause ≡ true) ⊎ Disables k.disabled_capabilities a.capability)

disabled_iff :
    (o : Option CapabilityCategory) (disabled : List CapabilityCategory)
    → (is_disabled o disabled ≡ true) ↔ Disables disabled o
disabled_iff none disabled = ground arith
disabled_iff (some c) disabled = includes_iff disabled c

-- The kill switches block exactly the actions that they hold back.
pub is_blocked_by_kill_switch_iff :
    (a : ActionDescriptor) (k : KillSwitchState)
    → (is_blocked_by_kill_switch a k ≡ true) ↔ Blocked a k
unfolding is_blocked_by_kill_switch
is_blocked_by_kill_switch_iff a k =
    ground (arith, disabled_iff a.capability k.disabled_capabilities)

-- The settings that an input carries, or the defaults.
abbrev pub switches : PolicyInput → KillSwitchState
switches input = get_or input.kill_switches no_kill_switches

abbrev pub ceiling : PolicyInput → ℕ
ceiling input = level (get_or input.role_ceilings default_role_ceilings input.principal.role)

abbrev pub asked : PolicyInput → ℕ
asked input = level input.action.authority_level

-- The four gates in front of the authority levels.
pub record Passes (input : PolicyInput) : Type 0 where
  pub same_tenant : input.resource.organization_id ≡ input.principal.organization_id
  pub accessible : MayAccess input.resource.scope input.principal input.resource
  pub unblocked : ¬ Blocked input.action (switches input)
  pub within_ceiling : asked input ≤ ceiling input

-- The gates as the source tests them.
abbrev gates : PolicyInput → Bool
gates input =
    (input.resource.organization_id == input.principal.organization_id)
    && (has_scope_access input.principal input.resource
        && (not (is_blocked_by_kill_switch input.action (switches input))
            && leb (asked input) (ceiling input)))

gates_iff : (input : PolicyInput) → (gates input ≡ true) ↔ Passes input
gates_iff input = (
  λ h. record {
    same_tenant =
        ground (arith, eq_iff input.resource.organization_id input.principal.organization_id);
    accessible = (has_scope_access_iff input.principal input.resource).0 (ground arith);
    unblocked =
        λ b. ground (arith, (is_blocked_by_kill_switch_iff input.action (switches input)).1 b);
    within_ceiling = ground arith;
  },
  λ p. ground (
    arith,
    eq_iff input.resource.organization_id input.principal.organization_id,
    (has_scope_access_iff input.principal input.resource).1 p.accessible,
    (false_iff _ (is_blocked_by_kill_switch_iff input.action (switches input))).1 p.unblocked,
    p.within_ceiling,
  ),
)

-- An action is allowed exactly when all four gates are passed and it is either a routine action or
-- less, or one that is never autonomous in the hands of a human. So what is at the level
-- `approval_required` is never allowed outright, whatever the ceilings and switches.
pub evaluate-allow_iff :
    (input : PolicyInput)
    → ((evaluate input).effect ≡ allow) ↔ (
        Passes input
        × ((asked input ≤ level routine_action)
            ⊎ ((input.action.authority_level ≡ never_autonomous)
                × (input.principal.actor_kind ≡ human))))
unfolding evaluate
evaluate-allow_iff input = ground (arith, gates_iff input)

-- An approval is asked for exactly when all four gates are passed and the level is the one that
-- requires approval.
pub evaluate-approval_iff :
    (input : PolicyInput)
    → ((evaluate input).effect ≡ requires_approval)
      ↔ (Passes input × (input.action.authority_level ≡ approval_required))
unfolding evaluate
evaluate-approval_iff input = ground (arith, gates_iff input)

-- A decision to deny names the first gate that fails: the reasons come in the order tenant, scope,
-- kill switch, ceiling, and last the rule for what is never autonomous; all gates before the named
-- one are passed.
pub evaluate-reason_iff :
    (input : PolicyInput)
    → let d = evaluate input in
      let tenant = input.resource.organization_id ≡ input.principal.organization_id in
      let access = MayAccess input.resource.scope input.principal input.resource in
      let blocked = Blocked input.action (switches input) in
      ((d.reason ≡ PolicyReason.cross_tenant) ↔ ¬ tenant)
      × ((d.reason ≡ PolicyReason.scope_denied) ↔ (tenant × (¬ access)))
      × ((d.reason ≡ PolicyReason.kill_switch) ↔ (tenant × access × blocked))
      × ((d.reason ≡ PolicyReason.insufficient_authority)
          ↔ (tenant × access × (¬ blocked) × (ceiling input < asked input)))
      × ((d.reason ≡ PolicyReason.never_autonomous) ↔ (
          Passes input
          × (input.action.authority_level ≡ never_autonomous)
          × (input.principal.actor_kind ≡ agent)))
unfolding evaluate
evaluate-reason_iff input =
    let tenant = eq_iff input.resource.organization_id input.principal.organization_id in
    let access = has_scope_access_iff input.principal input.resource in
    let blocked = is_blocked_by_kill_switch_iff input.action (switches input) in
    ground (
      arith,
      tenant,
      false_iff _ tenant,
      access,
      false_iff _ access,
      blocked,
      false_iff _ blocked,
      gates_iff input,
    )

abbrev pub paused : PolicyInput → PolicyInput
paused input = record input {
  kill_switches = some (record {
    global_pause = true;
    disabled_capabilities = (switches input).disabled_capabilities;
  });
}

-- A global pause denies every action with side effects, whoever asks and whatever the ceilings.
pub evaluate-pause_denies :
    (input : PolicyInput)
    → input.action.side_effecting ≡ true
    → (evaluate (paused input)).effect ≡ deny
unfolding evaluate is_blocked_by_kill_switch
evaluate-pause_denies input h = ground arith

-- A global pause changes no decision on an action without side effects.
pub evaluate-pause_reads :
    (input : PolicyInput)
    → input.action.side_effecting ≡ false
    → evaluate (paused input) ≡ evaluate input
unfolding evaluate is_blocked_by_kill_switch
evaluate-pause_reads input h = ground arith
