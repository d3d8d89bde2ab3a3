-- ===== src/Access/Principals.antt =====
-- apps/control-plane/src/auth/principal-resolver.ts: the principal of a verified subject.
use donnav.Common.{
  String, Bool, true, false, List, [], ◌∷◌, ◌&&◌, Option, none, some, map, filter, find, ◌==◌,
  string_eq,
}
use donnav.Policy.Types.{human, PrincipalContext}
use donnav.Access.Tenancy.{UserRow, MembershipRow, ProjectMembershipRow, Tenancy}

-- `where external_auth_id = …`, which a null never meets.
abbrev pub has_external : String → Option String → Bool
has_external external none = false
has_external external (some id) = id == external

abbrev pub is_external_user : String → UserRow → Bool
is_external_user external user = has_external external user.external_auth_id

abbrev pub is_membership_of : String → String → MembershipRow → Bool
is_membership_of user_id organization_id m =
    (m.user_id == user_id) && (m.organization_id == organization_id)

-- `m.teamId === null`
abbrev pub is_org_level : Option String → Bool
is_org_level none = true
is_org_level (some team) = false

abbrev head : List MembershipRow → Option MembershipRow
head [] = none
head (m ∷ ms) = some m

abbrev or_else : Option MembershipRow → Option MembershipRow → Option MembershipRow
or_else none second = second
or_else (some first) second = some first

-- `memberships.find((m) => m.teamId === null) ?? memberships[0]`
abbrev pub primary_of : List MembershipRow → Option MembershipRow
primary_of ms = or_else (find (λ m. is_org_level m.team_id) ms) (head ms)

abbrev cons_some : Option String → List String → List String
cons_some none ids = ids
cons_some (some id) ids = id ∷ ids

-- The teams that are not null.
unfoldable pub team_ids_of : List MembershipRow → List String
team_ids_of [] = []
team_ids_of (m ∷ ms) = cons_some m.team_id (team_ids_of ms)

abbrev pub is_project_of : String → String → ProjectMembershipRow → Bool
is_project_of user_id organization_id m =
    (m.user_id == user_id) && (m.organization_id == organization_id)

abbrev pub with_primary :
    UserRow → List MembershipRow → Option MembershipRow → Tenancy → Option PrincipalContext
with_primary user memberships none db = none
with_primary user memberships (some primary) db = some (record {
  user_id = user.id;
  organization_id = user.organization_id;
  role = primary.role;
  actor_kind = human;
  team_ids = team_ids_of memberships;
  project_ids =
      map (λ m. m.project_id)
        (filter (is_project_of user.id user.organization_id) db.project_memberships);
})

abbrev pub resolve_user : Option UserRow → Tenancy → Option PrincipalContext
resolve_user none db = none
resolve_user (some user) db =
    let memberships = filter (is_membership_of user.id user.organization_id) db.memberships in
    with_primary user memberships (primary_of memberships) db

-- `DrizzlePrincipalResolver.resolve`, for the subject of the identity. None of its statements has an
-- `order by`, so their rows come in the order of `scan`.
unfoldable pub resolve_principal : (Tenancy → Tenancy) → String → Tenancy → Option PrincipalContext
resolve_principal scan subject db =
    resolve_user (find (is_external_user subject) (scan db).users) (scan db)
