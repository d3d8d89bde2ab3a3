-- ===== src/Access/Upserts.antt =====
-- What an upsert of apps/control-plane/src/webhooks/provisioning.ts leaves in the tables.
use donnav.Common.{
  ℕ, String, true, ◌≡◌, inl, inr, refl, ap, ◌∙◌, subst, arith, eq_iff, Option, none, some, map,
  find, find-snoc, find-map, find-In, find-accepts, find-absent, In, In-map, In-snoc, [], ◌∷◌, ◌++◌,
  Bool, false, sym, ok, Option-cases, ◌==◌, string_eq,
}
use mathlib.Core.Option
use donnav.Domain.Values.{Role}
use donnav.Events.Create.{Platform}
use donnav.Access.Tenancy.{
  OrganizationRow, UserRow, MembershipRow, Tenancy, AccessServer, Rearranges,
}
use donnav.Access.Principals.{is_external_user}
use donnav.Access.Provisioning.{
  is_external_org, id_of_org, set_org, upsert_org_at, is_org_membership, set_user, set_role,
  written, upsert_org, id_of_user, upsert_user_at, upsert_user, upsert_membership_at,
  upsert_membership, user_id_by_external, org_id_by_external, org_id_by_external,
}

contrary : {t : Bool} → t ≡ false → t ≡ true → ⊥
contrary e f = cc

module _ {W X : Type 0} (platform : Platform W) (server : AccessServer X) where
  -- A write that was not refused leaves what it was to leave.
  written-ok :
      {A : Type 0} (a : A) (db : Tenancy) (w : W) (a' : A) (db' : Tenancy) (w' : W)
      → written platform server a db w ≡ ok (a', db', w')
      → (a ≡ a') × (db ≡ db')
  written-ok a db w a' db' w' = elim (Option-cases (server.violates db)) [
    | inl e ↦ rw (e) (λ h. ground arith)
    | inr (x, e) ↦ rw (e) (λ h. ground arith)
  ]

  -- There is a user of the subject, and each has this identifier and is in this organization.
  abbrev pub IsUser : String → String → String → Tenancy → Type 0
  IsUser external id org db =
      ((u : UserRow) × In u db.users × (is_external_user external u ≡ true))
      × ((u : UserRow)
          → In u db.users
          → is_external_user external u ≡ true
          → (u.id ≡ id) × (u.organization_id ≡ org))

  -- No two users have the subject, as the unique column has it.
  abbrev pub OneUser : String → Tenancy → Type 0
  OneUser external db =
      (u v : UserRow)
      → In u db.users
      → In v db.users
      → is_external_user external u ≡ true
      → is_external_user external v ≡ true
      → u ≡ v

  self : (t : String) → (t == t) ≡ true
  self t = ground (arith, eq_iff t t)

  abbrev updated : UserRow → String → String → String → ℕ → Tenancy → Tenancy
  updated u org email name now db = record db {
    users = map (set_user u.id org email name now) db.users;
  }

  set_user-external :
      (external id org email name : String) (now : ℕ) (u : UserRow)
      → is_external_user external (set_user id org email name now u) ≡ is_external_user external u
  set_user-external external id org email name now u = ground arith

  set_user-set :
      (u : UserRow) (org email name : String) (now : ℕ)
      → ((set_user u.id org email name now u).id ≡ u.id)
        × ((set_user u.id org email name now u).organization_id ≡ org)
  set_user-set u org email name now = (ground (arith, self u.id), ground (arith, self u.id))

  updated-IsUser :
      (u : UserRow) (external org email name : String) (now : ℕ) (db : Tenancy)
      → OneUser external db
      → find (is_external_user external) db.users ≡ some u
      → IsUser external u.id org (updated u org email name now db)
  updated-IsUser u external org email name now db one f =
      let change = set_user u.id org email name now in
      let here = find-In (is_external_user external) db.users u f in
      let passes = find-accepts (is_external_user external) db.users u f in
      (
        (
          change u,
          (In-map change (change u) db.users).1 (u, here, refl),
          set_user-external external u.id org email name now u ∙ passes,
        ),
        λ v i h.
            let (o, j, e) = (In-map change v db.users).0 i in
            let was =
              sym (set_user-external external u.id org email name now o)
              ∙ sym (ap (is_external_user external) e)
              ∙ h in
            let same = e ∙ ap change (one o u j here was passes) in
            subst (λ x. (x.id ≡ u.id) × (x.organization_id ≡ org)) (sym same)
              (set_user-set u org email name now),
      )

  inserted-IsUser :
      (row : UserRow) (external : String) (db : Tenancy)
      → find (is_external_user external) db.users ≡ none
      → is_external_user external row ≡ true
      → IsUser external row.id row.organization_id (record db { users = db.users ++ row ∷ [] })
  inserted-IsUser row external db f passes = (
    (row, (In-snoc row row db.users).1 (inr refl), passes),
    λ v i h. elim ((In-snoc v row db.users).0 i) [
      | inl j ↦ absurd (contrary (find-absent (is_external_user external) db.users f v j) h)
      | inr e ↦ (ap (λ x. x.id) e, ap (λ x. x.organization_id) e)
    ],
  )

  abbrev pub UserSet : String → String → String → Tenancy → Tenancy → Type 0
  UserSet external id org db d =
      IsUser external id org d
      × (d.organizations ≡ db.organizations)
      × (d.memberships ≡ db.memberships)

  upsert_user_at-IsUser :
      (found : Option UserRow) (external org email name : String) (db : Tenancy) (w : W)
      (id : String) (db' : Tenancy) (w' : W)
      → OneUser external db
      → find (is_external_user external) db.users ≡ found
      → upsert_user_at platform server (id_of_user found) external org email name db w
        ≡ ok (id, db', w')
      → UserSet external id org db db'
  upsert_user_at-IsUser none external org email name db w id db' w' one f h =
      let (e, q) = written-ok _ _ _ id db' w' h in
      subst (λ i. UserSet external i org db db') e
        (subst (UserSet external _ org db) q
          (inserted-IsUser _ external db f (self external), refl, refl))
  upsert_user_at-IsUser (some u) external org email name db w id db' w' one f h =
      let (e, q) = written-ok _ _ _ id db' w' h in
      subst (λ i. UserSet external i org db db') e
        (subst (UserSet external u.id org db) q
          (updated-IsUser u external org email name (platform.now w) db one f, refl, refl))

  -- The user has a membership in the organization, of no team, and each such has this role.
  abbrev pub HasRole : String → String → Role → Tenancy → Type 0
  HasRole user_id org role db =
      ((m : MembershipRow) × In m db.memberships × (is_org_membership user_id org m ≡ true))
      × ((m : MembershipRow)
          → In m db.memberships
          → is_org_membership user_id org m ≡ true
          → m.role ≡ role)

  -- No two memberships of a user in an organization are of no team.
  abbrev pub OneMembership : String → String → Tenancy → Type 0
  OneMembership user_id org db =
      (m n : MembershipRow)
      → In m db.memberships
      → In n db.memberships
      → is_org_membership user_id org m ≡ true
      → is_org_membership user_id org n ≡ true
      → m ≡ n

  set_role-membership :
      (user_id org id : String) (role : Role) (m : MembershipRow)
      → is_org_membership user_id org (set_role id role m) ≡ is_org_membership user_id org m
  set_role-membership user_id org id role m = ground arith

  set_role-set : (role : Role) (m : MembershipRow) → (set_role m.id role m).role ≡ role
  set_role-set role m = ground (arith, self m.id)

  updated-HasRole :
      (m : MembershipRow) (user_id org : String) (role : Role) (db : Tenancy)
      → OneMembership user_id org db
      → In m db.memberships
      → is_org_membership user_id org m ≡ true
      → HasRole user_id org role
          (record db { memberships = map (set_role m.id role) db.memberships })
  updated-HasRole m user_id org role db one here passes =
      let change = set_role m.id role in
      (
        (
          change m,
          (In-map change (change m) db.memberships).1 (m, here, refl),
          set_role-membership user_id org m.id role m ∙ passes,
        ),
        λ n i h.
            let (o, j, e) = (In-map change n db.memberships).0 i in
            let was =
              sym (set_role-membership user_id org m.id role o)
              ∙ sym (ap (is_org_membership user_id org) e)
              ∙ h in
            ap (λ x. x.role) (e ∙ ap change (one o m j here was passes)) ∙ set_role-set role m,
      )

  inserted-HasRole :
      (row : MembershipRow) (user_id org : String) (db : Tenancy)
      → ((m : MembershipRow) → In m db.memberships → is_org_membership user_id org m ≡ false)
      → is_org_membership user_id org row ≡ true
      → HasRole user_id org row.role (record db { memberships = db.memberships ++ row ∷ [] })
  inserted-HasRole row user_id org db absent passes = (
    (row, (In-snoc row row db.memberships).1 (inr refl), passes),
    λ n i h. elim ((In-snoc n row db.memberships).0 i) [
      | inl j ↦ absurd (contrary (absent n j) h)
      | inr e ↦ ap (λ x. x.role) e
    ],
  )

  abbrev pub RoleSet : String → String → Role → Tenancy → Tenancy → Type 0
  RoleSet user_id org role db d =
      HasRole user_id org role d × (d.users ≡ db.users) × (d.organizations ≡ db.organizations)

  upsert_membership_at-HasRole :
      (found : Option MembershipRow) (org user_id : String) (role : Role) (db : Tenancy) (w : W)
      (u : Unit {0}) (db' : Tenancy) (w' : W)
      → Rearranges server.scan
      → OneMembership user_id org db
      → find (is_org_membership user_id org) (server.scan db).memberships ≡ found
      → upsert_membership_at platform server found org user_id role db w ≡ ok (u, db', w')
      → RoleSet user_id org role db db'
  upsert_membership_at-HasRole none org user_id role db w u db' w' a one f h =
      let (e, q) = written-ok _ _ _ u db' w' h in
      let absent = find-absent (is_org_membership user_id org) (server.scan db).memberships f in
      subst (RoleSet user_id org role db) q (
        inserted-HasRole _ user_id org db (λ m i. absent m ((a.memberships db m).1 i))
            (ground (arith, self user_id, self org)),
        refl,
        refl,
      )
  upsert_membership_at-HasRole (some m) org user_id role db w u db' w' a one f h =
      let (e, q) = written-ok _ _ _ u db' w' h in
      let seen = (server.scan db).memberships in
      let here = (a.memberships db m).0 (find-In (is_org_membership user_id org) seen m f) in
      subst (RoleSet user_id org role db) q (
        updated-HasRole m user_id org role db one here
            (find-accepts (is_org_membership user_id org) seen m f),
        refl,
        refl,
      )

  -- The organization of the provider's identifier has this identifier.
  abbrev pub IsOrg : String → String → Tenancy → Type 0
  IsOrg external id db = org_id_by_external db external ≡ some id

  pub IsOrg-kept :
      (external id : String) (db db' : Tenancy)
      → db'.organizations ≡ db.organizations
      → IsOrg external id db
      → IsOrg external id db'
  unfolding org_id_by_external
  IsOrg-kept external id db db' same h =
      ap (λ orgs. id_of_org (find (is_external_org external) orgs)) same ∙ h

  set_org-external :
      (external id name slug : String) (now : ℕ) (o : OrganizationRow)
      → is_external_org external (set_org id name slug now o) ≡ is_external_org external o
  set_org-external external id name slug now o = ground arith

  set_org-id :
      (id name slug : String) (now : ℕ) (o : OrganizationRow)
      → (set_org id name slug now o).id ≡ o.id
  set_org-id id name slug now o = ground arith

  upsert_org_at-IsOrg :
      (found : Option OrganizationRow) (external name slug : String) (db : Tenancy) (w : W)
      (id : String) (db' : Tenancy) (w' : W)
      → find (is_external_org external) db.organizations ≡ found
      → upsert_org_at platform server (id_of_org found) external name slug db w ≡ ok (id, db', w')
      → IsOrg external id db'
  unfolding org_id_by_external
  upsert_org_at-IsOrg none external name slug db w id db' w' f h =
      let (e, q) = written-ok _ _ _ id db' w' h in
      subst (IsOrg external id) q (
        ap id_of_org (find-snoc (is_external_org external) db.organizations _ f (self external))
        ∙ ap some e)
  upsert_org_at-IsOrg (some o) external name slug db w id db' w' f h =
      let (e, q) = written-ok _ _ _ id db' w' h in
      let change = set_org o.id name slug (platform.now w) in
      subst (IsOrg external id) q (
        ap id_of_org (
          find-map (is_external_org external) change db.organizations
            (set_org-external external o.id name slug (platform.now w))
          ∙ ap (Option.map change) f)
        ∙ ap some (set_org-id o.id name slug (platform.now w) o ∙ e))

  upsert_org_at_kept :
      (found : Option String) (external name slug : String) (db : Tenancy) (w : W) (id : String)
      (db' : Tenancy) (w' : W)
      → upsert_org_at platform server found external name slug db w ≡ ok (id, db', w')
      → (db'.users ≡ db.users) × (db'.memberships ≡ db.memberships)
  upsert_org_at_kept none external name slug db w id db' w' h =
      let (e, q) = written-ok _ _ _ id db' w' h in
      subst (λ d. (d.users ≡ db.users) × (d.memberships ≡ db.memberships)) q (refl, refl)
  upsert_org_at_kept (some o) external name slug db w id db' w' h =
      let (e, q) = written-ok _ _ _ id db' w' h in
      subst (λ d. (d.users ≡ db.users) × (d.memberships ≡ db.memberships)) q (refl, refl)

  pub upsert_org_kept :
      (external name slug : String) (db : Tenancy) (w : W) (id : String) (db' : Tenancy) (w' : W)
      → upsert_org platform server external name slug db w ≡ ok (id, db', w')
      → (db'.users ≡ db.users) × (db'.memberships ≡ db.memberships)
  unfolding upsert_org
  upsert_org_kept external name slug db w id db' w' h =
      upsert_org_at_kept (org_id_by_external db external) external name slug db w id db' w' h

  pub upsert_org-IsOrg :
      (external name slug : String) (db : Tenancy) (w : W) (id : String) (db' : Tenancy) (w' : W)
      → upsert_org platform server external name slug db w ≡ ok (id, db', w')
      → IsOrg external id db'
  unfolding upsert_org org_id_by_external
  upsert_org-IsOrg external name slug db w id db' w' h =
      upsert_org_at-IsOrg (find (is_external_org external) db.organizations) external name slug db w
        id db' w' refl h

  pub upsert_user-IsUser :
      (external org email name : String) (db : Tenancy) (w : W) (id : String) (db' : Tenancy)
      (w' : W)
      → OneUser external db
      → upsert_user platform server external org email name db w ≡ ok (id, db', w')
      → UserSet external id org db db'
  unfolding upsert_user user_id_by_external
  upsert_user-IsUser external org email name db w id db' w' one h =
      upsert_user_at-IsUser (find (is_external_user external) db.users) external org email name db w
        id db' w' one refl h

  pub upsert_membership-HasRole :
      (org user_id : String) (role : Role) (db : Tenancy) (w : W) (u : Unit {0}) (db' : Tenancy)
      (w' : W)
      → Rearranges server.scan
      → OneMembership user_id org db
      → upsert_membership platform server org user_id role db w ≡ ok (u, db', w')
      → RoleSet user_id org role db db'
  unfolding upsert_membership
  upsert_membership-HasRole org user_id role db w u db' w' a one h =
      upsert_membership_at-HasRole
        (find (is_org_membership user_id org) (server.scan db).memberships) org user_id role db w u
        db' w' a one refl h

  -- Tables with the same rows are alike.
  pub OneUser-kept :
      (external : String) (db db' : Tenancy)
      → db'.users ≡ db.users
      → OneUser external db
      → OneUser external db'
  OneUser-kept external db db' e one u v i j = one u v (subst (In u) e i) (subst (In v) e j)

  pub OneMembership-kept :
      (user_id org : String) (db db' : Tenancy)
      → db'.memberships ≡ db.memberships
      → OneMembership user_id org db
      → OneMembership user_id org db'
  OneMembership-kept user_id org db db' e one m n i j =
      one m n (subst (In m) e i) (subst (In n) e j)

  pub IsUser-kept :
      (external id org : String) (db db' : Tenancy)
      → db'.users ≡ db.users
      → IsUser external id org db
      → IsUser external id org db'
  IsUser-kept external id org db db' e ((u, i, h), all) =
      ((u, subst (In u) (sym e) i, h), λ v j. all v (subst (In v) e j))
