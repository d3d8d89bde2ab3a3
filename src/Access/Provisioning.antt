-- ===== src/Access/Provisioning.antt =====
-- apps/control-plane/src/webhooks/provisioning.ts: provisioning events applied to the tables. The
-- constraints of the database are a parameter: what is thrown where the tables after a write break
-- them, and in what order rows are answered where a statement asks for none.
use donnav.Common.{
  ℕ, String, Bool, true, false, [], ◌∷◌, ◌++◌, ◌&&◌, ◌||◌, Option, none, some, map, find, filter,
  not, ◌==◌, string_eq, Result, ok, err, ◌>>=◌, if◌then◌else◌,
}
use donnav.Common.Json.{Fields}
use donnav.Domain.Values.{Role}
use donnav.Events.Create.{Platform}
use donnav.Access.Tenancy.{OrganizationRow, UserRow, MembershipRow, Tenancy, AccessServer}
use donnav.Access.Principals.{has_external, is_external_user, is_membership_of, is_org_level}
use donnav.Access.ClerkEvents.{
  ClerkEvent, MembershipSync, UserUpdate, OrgUpdate, parse_membership_sync, parse_user_update,
  parse_org_update, parse_deleted_id, parse_membership_ref,
}

-- What an event is rejected with: a payload that does not parse, or what the database throws.
pub data ProvisioningError (X : Type 0) : Type 0 where
  bad_payload : String → ProvisioningError X
  refused : X → ProvisioningError X

abbrev pub is_external_org : String → OrganizationRow → Bool
is_external_org external org = has_external external org.external_auth_id

-- `isNull(teamId)`, for the membership of a user in an organization.
abbrev pub is_org_membership : String → String → MembershipRow → Bool
is_org_membership user_id organization_id m =
    is_membership_of user_id organization_id m && is_org_level m.team_id

abbrev pub id_of_org : Option OrganizationRow → Option String
id_of_org none = none
id_of_org (some org) = some org.id

abbrev pub id_of_user : Option UserRow → Option String
id_of_user none = none
id_of_user (some user) = some user.id

unfoldable pub org_id_by_external : Tenancy → String → Option String
org_id_by_external db external = id_of_org (find (is_external_org external) db.organizations)

unfoldable pub user_id_by_external : Tenancy → String → Option String
user_id_by_external db external = id_of_user (find (is_external_user external) db.users)

-- The rows that `set` gives, where the identifier is the one that was found.
abbrev pub set_org : String → String → String → ℕ → OrganizationRow → OrganizationRow
set_org id name slug now org =
    if org.id == id then record org { name = name; slug = slug; updated_at = now } else org

abbrev pub set_user : String → String → String → String → ℕ → UserRow → UserRow
set_user id organization_id email display_name now user =
    if user.id == id
    then record user {
      organization_id = organization_id;
      email = email;
      display_name = display_name;
      updated_at = now;
    }
    else user

abbrev pub set_role : String → Role → MembershipRow → MembershipRow
set_role id role m = if m.id == id then record m { role = role } else m

-- `updateUser` and `revokeUser` find their rows by the identifier of the provider.
abbrev set_profile : UserUpdate → ℕ → UserRow → UserRow
set_profile u now user =
    if is_external_user u.clerk_user_id user
    then record user { email = u.email; display_name = u.display_name; updated_at = now }
    else user

abbrev pub clear_external : String → ℕ → UserRow → UserRow
clear_external external now user =
    if is_external_user external user
    then record user { external_auth_id = none; updated_at = now }
    else user

-- What the `switch` on the type of an event tells apart.
pub data EventKind : Type 0 where
  membership_synced membership_deleted user_changed user_deleted : EventKind
  organization_changed other_event : EventKind

abbrev pub kind_of : String → EventKind
kind_of type =
    if (type == "organizationMembership.created") || (type == "organizationMembership.updated")
    then membership_synced
    else if type == "organizationMembership.deleted"
    then membership_deleted
    else if (type == "user.created") || (type == "user.updated")
    then user_changed
    else if type == "user.deleted"
    then user_deleted
    else if (type == "organization.created") || (type == "organization.updated")
    then organization_changed
    else other_event

module _ {W X : Type 0} (platform : Platform W) (server : AccessServer X) where
  -- What a statement of a transaction gives: a value, the tables and the world after.
  abbrev pub Step : Type 0 → Type 0
  Step A = Result X (A × Tenancy × W)

  abbrev unless_violated : {A : Type 0} → Option X → A → Tenancy → W → Step A
  unless_violated none a db w = ok (a, db, w)
  unless_violated (some x) a db w = err x

  -- A write, with its value.
  abbrev pub written : {A : Type 0} → A → Tenancy → W → Step A
  written a db w = unless_violated (server.violates db) a db w

  abbrev pub insert_org : String → String → String → String → Tenancy → W → Step String
  insert_org id external name slug db w =
      let row : OrganizationRow = record {
        id = id;
        name = name;
        slug = slug;
        external_auth_id = some external;
        created_at = platform.now w;
        updated_at = platform.now w;
      } in
      written id (record db { organizations = db.organizations ++ row ∷ [] }) w

  abbrev pub upsert_org_at : Option String → String → String → String → Tenancy → W → Step String
  upsert_org_at (some existing) external name slug db w =
      written existing
        (record db {
          organizations = map (set_org existing name slug (platform.now w)) db.organizations;
        })
        w
  upsert_org_at none external name slug db w =
      let (id, w') = platform.random_uuid w in insert_org id external name slug db w'

  unfoldable pub upsert_org : String → String → String → Tenancy → W → Step String
  upsert_org external name slug db w =
      upsert_org_at (org_id_by_external db external) external name slug db w

  abbrev pub insert_user : String → String → String → String → String → Tenancy → W → Step String
  insert_user id external organization_id email display_name db w =
      let row : UserRow = record {
        id = id;
        organization_id = organization_id;
        email = email;
        display_name = display_name;
        external_auth_id = some external;
        created_at = platform.now w;
        updated_at = platform.now w;
      } in
      written id (record db { users = db.users ++ row ∷ [] }) w

  abbrev pub upsert_user_at :
      Option String → String → String → String → String → Tenancy → W → Step String
  upsert_user_at (some existing) external organization_id email display_name db w =
      written existing
        (record db {
          users =
              map (set_user existing organization_id email display_name (platform.now w)) db.users;
        })
        w
  upsert_user_at none external organization_id email display_name db w =
      let (id, w') = platform.random_uuid w in
      insert_user id external organization_id email display_name db w'

  unfoldable pub upsert_user : String → String → String → String → Tenancy → W → Step String
  upsert_user external organization_id email display_name db w =
      upsert_user_at (user_id_by_external db external) external organization_id email display_name
        db w

  -- The identifier of a new membership is made by the database.
  abbrev pub upsert_membership_at :
      Option MembershipRow → String → String → Role → Tenancy → W → Step (Unit {0})
  upsert_membership_at (some found) organization_id user_id role db w =
      written tt (record db { memberships = map (set_role found.id role) db.memberships }) w
  upsert_membership_at none organization_id user_id role db w =
      let (id, w') = platform.random_uuid w in
      let row : MembershipRow = record {
        id = id;
        organization_id = organization_id;
        user_id = user_id;
        team_id = none;
        role = role;
        created_at = platform.now w';
      } in
      written tt (record db { memberships = db.memberships ++ row ∷ [] }) w'

  -- The statement that looks for the row has no `order by`.
  unfoldable pub upsert_membership : String → String → Role → Tenancy → W → Step (Unit {0})
  upsert_membership organization_id user_id role db w =
      upsert_membership_at
        (find (is_org_membership user_id organization_id) (server.scan db).memberships)
        organization_id user_id role db w

  -- The body of the transaction of `syncMembership`.
  unfoldable pub sync_membership : MembershipSync → Tenancy → W → Step (Unit {0})
  sync_membership m db w = do
    (org_id, db₁, w₁) ← upsert_org m.clerk_org_id m.org_name m.org_slug db w
    (user_id, db₂, w₂) ← upsert_user m.clerk_user_id org_id m.email m.display_name db₁ w₁
    upsert_membership org_id user_id m.role db₂ w₂

  unfoldable pub update_user : UserUpdate → Tenancy → W → Step (Unit {0})
  update_user u db w =
      written tt (record db { users = map (set_profile u (platform.now w)) db.users }) w

  abbrev drop_value : {A : Type 0} → Step A → Step (Unit {0})
  drop_value step = step >>= λ s. ok (tt, s.1, s.2)

  unfoldable pub upsert_organization : OrgUpdate → Tenancy → W → Step (Unit {0})
  upsert_organization o db w = drop_value (upsert_org o.clerk_org_id o.name o.slug db w)

  abbrev remove_found : Option String → Option String → Tenancy → W → Step (Unit {0})
  remove_found (some org) (some user_id) db w =
      written tt
        (record db {
          memberships = filter (λ m. not (is_org_membership user_id org m)) db.memberships;
        })
        w
  remove_found _ _ db w = ok (tt, db, w)

  unfoldable pub remove_membership : String → String → Tenancy → W → Step (Unit {0})
  remove_membership clerk_org_id clerk_user_id db w =
      remove_found (org_id_by_external db clerk_org_id) (user_id_by_external db clerk_user_id) db w

  unfoldable pub revoke_user : String → Tenancy → W → Step (Unit {0})
  revoke_user clerk_user_id db w =
      written tt
        (record db { users = map (clear_external clerk_user_id (platform.now w)) db.users }) w

  -- What `handle` gives: whether the event is one that is handled, and the tables after. What is
  -- thrown leaves them as they were.
  abbrev pub Handled : Type 0
  Handled = Result (ProvisioningError X) Bool × Tenancy × W

  abbrev pub applied_step : Step (Unit {0}) → Tenancy → W → Handled
  applied_step (ok (u, db', w')) db w = (ok true, db', w')
  applied_step (err x) db w = (err (refused x), db, w)

  abbrev pub apply_parsed :
      {A : Type 0} → Result String A → (A → Tenancy → W → Step (Unit {0})) → Tenancy → W → Handled
  apply_parsed (ok a) apply db w = applied_step (apply a db w) db w
  apply_parsed (err message) apply db w = (err (bad_payload message), db, w)

  -- The cases of the `switch`.
  abbrev pub handle_kind : EventKind → Fields → Tenancy → W → Handled
  handle_kind membership_synced payload db w =
      apply_parsed (parse_membership_sync payload) sync_membership db w
  handle_kind membership_deleted payload db w =
      apply_parsed (parse_membership_ref payload)
        (λ ref. remove_membership ref.clerk_org_id ref.clerk_user_id) db w
  handle_kind user_changed payload db w = apply_parsed (parse_user_update payload) update_user db w
  handle_kind user_deleted payload db w = apply_parsed (parse_deleted_id payload) revoke_user db w
  handle_kind organization_changed payload db w =
      apply_parsed (parse_org_update payload) upsert_organization db w
  handle_kind other_event payload db w = (ok false, db, w)

  unfoldable pub handle_event : ClerkEvent → Tenancy → W → Handled
  handle_event event db w = handle_kind (kind_of event.type) event.payload db w
