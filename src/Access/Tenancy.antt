-- ===== src/Access/Tenancy.antt =====
-- packages/db/src/schema/tenancy.ts: the rows of the tables that say who belongs where.
use donnav.Common.{ℕ, String, List, Option, In, ◌↔◌}
use donnav.Domain.Values.{Role}

pub record OrganizationRow : Type 0 where
  pub id : String
  pub name : String
  pub slug : String
  pub external_auth_id : Option String
  pub created_at : ℕ
  pub updated_at : ℕ

pub record UserRow : Type 0 where
  pub id : String
  pub organization_id : String
  pub email : String
  pub display_name : String
  pub external_auth_id : Option String
  pub created_at : ℕ
  pub updated_at : ℕ

pub record MembershipRow : Type 0 where
  pub id : String
  pub organization_id : String
  pub user_id : String
  pub team_id : Option String
  pub role : Role
  pub created_at : ℕ

pub record ProjectMembershipRow : Type 0 where
  pub id : String
  pub organization_id : String
  pub project_id : String
  pub user_id : String
  pub created_at : ℕ

pub record Tenancy : Type 0 where
  pub organizations : List OrganizationRow
  pub users : List UserRow
  pub memberships : List MembershipRow
  pub project_memberships : List ProjectMembershipRow

-- What is taken from the database: whether it refuses the tables after a write, and the tables in
-- the order in which a statement without `order by` answers their rows, which may be any.
pub record AccessServer (X : Type 0) : Type 0 where
  pub violates : Tenancy → Option X
  pub scan : Tenancy → Tenancy

-- An order of the rows, and no others.
pub record Rearranges (scan : Tenancy → Tenancy) : Type 0 where
  pub users : (db : Tenancy) (u : UserRow) → In u (scan db).users ↔ In u db.users
  pub memberships :
      (db : Tenancy) (m : MembershipRow) → In m (scan db).memberships ↔ In m db.memberships
