-- ===== src/Domain/Values.antt =====
-- packages/core-domain/src: authority.ts, compute-node.ts, roles.ts, scope.ts. Identifiers (ids.ts)
-- are brands over strings that exist at compile time only, so they are plain strings here.
use donnav.Common.{
  ℕ, String, Bool, true, false, List, [], ◌∷◌, ◌≡◌, ◌↔◌, ◌&&◌, arith, leb, includes, In, map, ◌<◌,
  string_eq, named_iff,
}

-- authority.ts: `AUTHORITY_LEVELS`, with the number of each level.
pub data AuthorityLevel : Type 0 where
  observe prepare routine_action approval_required never_autonomous : AuthorityLevel

abbrev pub level : AuthorityLevel → ℕ
level observe = 0
level prepare = 1
level routine_action = 2
level approval_required = 3
level never_autonomous = 4

unfoldable pub is_autonomously_executable : AuthorityLevel → Bool
is_autonomously_executable l = leb (level l) (level routine_action)

unfoldable pub requires_approval : AuthorityLevel → Bool
requires_approval l = leb (level approval_required) (level l)

-- compute-node.ts
pub data NodeMode : Type 0 where
  auto off local_only : NodeMode

pub data NodeHealth : Type 0 where
  healthy degraded offline : NodeHealth

abbrev is_auto : NodeMode → Bool
is_auto auto = true
is_auto _ = false

abbrev is_healthy : NodeHealth → Bool
is_healthy healthy = true
is_healthy _ = false

unfoldable pub is_dispatchable : NodeMode → NodeHealth → Bool
is_dispatchable mode health = is_auto mode && is_healthy health

-- roles.ts: `ROLES` and the strings that stand for them.
pub data Role : Type 0 where
  owner admin executive team_lead team_member contractor : Role

abbrev pub roles : List Role
roles = owner ∷ admin ∷ executive ∷ team_lead ∷ team_member ∷ contractor ∷ []

abbrev pub role_name : Role → String
role_name owner = "owner"
role_name admin = "admin"
role_name executive = "executive"
role_name team_lead = "team_lead"
role_name team_member = "team_member"
role_name contractor = "contractor"

unfoldable pub is_role : String → Bool
is_role value = includes (map role_name roles) value

-- scope.ts: `SCOPES` and the strings that stand for them.
pub data Scope : Type 0 where
  private_scope project team organization : Scope

abbrev pub scopes : List Scope
scopes = private_scope ∷ project ∷ team ∷ organization ∷ []

abbrev pub scope_name : Scope → String
scope_name private_scope = "PRIVATE"
scope_name project = "PROJECT"
scope_name team = "TEAM"
scope_name organization = "ORGANIZATION"

unfoldable pub is_scope : String → Bool
is_scope value = includes (map scope_name scopes) value

-- Every level either runs without a per-action approval or requires one, never both; and what
-- runs without approval is what stands below `approval_required`.
pub authority_split :
    (l : AuthorityLevel)
    → ((is_autonomously_executable l ≡ true) ↔ (requires_approval l ≡ false))
      × ((is_autonomously_executable l ≡ true) ↔ (level l < level approval_required))
unfolding is_autonomously_executable requires_approval
authority_split l = ground arith

role-listed : (r : Role) → In r roles
role-listed r = ground arith

scope-listed : (s : Scope) → In s scopes
scope-listed s = ground arith

-- A string passes the test for roles exactly when it is the name of a role.
pub is_role_iff : (s : String) → (is_role s ≡ true) ↔ ((r : Role) × (s ≡ role_name r))
unfolding is_role
is_role_iff s = named_iff role_name roles role-listed s

-- A string passes the test for scopes exactly when it is the name of a scope.
pub is_scope_iff : (s : String) → (is_scope s ≡ true) ↔ ((c : Scope) × (s ≡ scope_name c))
unfolding is_scope
is_scope_iff s = named_iff scope_name scopes scope-listed s
