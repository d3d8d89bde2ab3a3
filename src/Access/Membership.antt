-- ===== src/Access/Membership.antt =====
-- The principal of a subject whose membership was synchronized: apps/control-plane/src/webhooks and
-- auth/principal-resolver.ts.
use donnav.Common.{
  ◌>>=◌, String, List, ◌≡◌, refl, sym, ap, ◌∙◌, subst, some, true, In, find, find-found,
  find-filter, filter, ok, >>=-eq_ok, string_eq,
}
use donnav.Domain.Values.{Role}
use donnav.Policy.Types.{PrincipalContext}
use donnav.Events.Create.{Platform}
use donnav.Access.Tenancy.{UserRow, MembershipRow, Tenancy, AccessServer, Rearranges}
use donnav.Access.Principals.{
  is_external_user, is_membership_of, is_org_level, primary_of, resolve_user, resolve_principal,
}
use donnav.Access.ClerkEvents.{MembershipSync}
use donnav.Access.Provisioning.{
  Step, is_org_membership, upsert_org, upsert_user, upsert_membership, sync_membership,
  org_id_by_external, org_id_by_external,
}
use donnav.Access.Upserts.{
  HasRole, IsUser, OneUser, OneMembership, OneUser-kept, OneMembership-kept, IsUser-kept,
  upsert_org_kept, upsert_org-IsOrg, IsOrg-kept, upsert_user-IsUser, upsert_membership-HasRole,
}

primary_of-org_level :
    (ms : List MembershipRow) (m : MembershipRow)
    → find (λ m. is_org_level m.team_id) ms ≡ some m
    → primary_of ms ≡ some m
primary_of-org_level ms m e = rw (e) refl

-- The principal of a user, each of whose memberships in its organization of no team has a role, has
-- that role, where there is one.
resolve_user-role :
    (u : UserRow) (role : Role) (db : Tenancy) (m : MembershipRow)
    → In m db.memberships
    → is_org_membership u.id u.organization_id m ≡ true
    → ((n : MembershipRow)
        → In n db.memberships
        → is_org_membership u.id u.organization_id n ≡ true
        → n.role ≡ role)
    → (p : PrincipalContext) × (resolve_user (some u) db ≡ some p)
      × (p.organization_id ≡ u.organization_id)
      × (p.role ≡ role)
resolve_user-role u role db m i h all =
    let (n, f, j, g) = find-found (is_org_membership u.id u.organization_id) db.memberships m i h in
    let primary =
      primary_of-org_level (filter (is_membership_of u.id u.organization_id) db.memberships) n (
        find-filter (is_membership_of u.id u.organization_id) (λ m. is_org_level m.team_id)
          db.memberships
        ∙ f) in
    rw (primary) (_, refl, refl, all n j g)

module _ {W X : Type 0} (platform : Platform W) (server : AccessServer X) where
  -- The statements after the organization, and after the user.
  abbrev after_user :
      MembershipSync → String → String × Tenancy × W → Step platform server (Unit {0})
  after_user m org (id, db, w) = upsert_membership platform server org id m.role db w

  abbrev after_org : MembershipSync → String × Tenancy × W → Step platform server (Unit {0})
  after_org m (org, db, w) =
      upsert_user platform server m.clerk_user_id org m.email m.display_name db w
      >>= after_user m org

  resolve_principal-role :
      (scan : Tenancy → Tenancy) (subject org id : String) (role : Role) (db : Tenancy)
      → Rearranges scan
      → IsUser platform server subject id org db
      → HasRole platform server id org role db
      → (p : PrincipalContext) × (resolve_principal scan subject db ≡ some p)
        × (p.organization_id ≡ org)
        × (p.role ≡ role)
  unfolding resolve_principal
  resolve_principal-role scan subject org id role db a ((user, i, passes), known) ((m, j, h), all) =
      let (u, f, k, g) =
        find-found (is_external_user subject) (scan db).users user ((a.users db user).1 i) passes in
      let (named, placed) = known u ((a.users db u).0 k) g in
      let (p, e, o, r) =
        resolve_user-role u role (scan db) m ((a.memberships db m).1 j)
          (subst (λ x. is_org_membership x u.organization_id m ≡ true) (sym named)
            (subst (λ x. is_org_membership id x m ≡ true) (sym placed) h))
          (λ n l q. all n ((a.memberships db n).0 l) (
            subst (λ x. is_org_membership id x n ≡ true) placed
              (subst (λ x. is_org_membership x u.organization_id n ≡ true) named q))) in
      (p, ap (λ x. resolve_user x (scan db)) f ∙ e, o ∙ placed, r)

  -- After a membership was synchronized, its subject resolves to a principal of the organization that
  -- the event names, and the role of the principal is the one of the event, in whatever order the
  -- rows of the tables are answered; where no two users had the subject before, as the unique
  -- column has it, and no user had two memberships in one organization that are of no team, which
  -- the tables do not rule out.
  pub sync_membership-resolves :
      (scan : Tenancy → Tenancy) (m : MembershipSync) (db : Tenancy) (w : W) (u : Unit {0})
      (db' : Tenancy) (w' : W)
      → Rearranges scan
      → Rearranges server.scan
      → OneUser platform server m.clerk_user_id db
      → ((user_id org : String) → OneMembership platform server user_id org db)
      → sync_membership platform server m db w ≡ ok (u, db', w')
      → (p : PrincipalContext) × (resolve_principal scan m.clerk_user_id db' ≡ some p)
        × (org_id_by_external db' m.clerk_org_id ≡ some p.organization_id)
        × (p.role ≡ m.role)
  unfolding sync_membership
  sync_membership-resolves scan m db w u db' w' a b one_user one h =
      let ((org, db₁, w₁), h₁, h₂) =
        >>=-eq_ok (upsert_org platform server m.clerk_org_id m.org_name m.org_slug db w)
          (after_org m) h in
      let ((id, db₂, w₂), h₃, h₄) =
        >>=-eq_ok (upsert_user platform server m.clerk_user_id org m.email m.display_name db₁ w₁)
          (after_user m org) h₂ in
      let known =
        upsert_org-IsOrg platform server m.clerk_org_id m.org_name m.org_slug db w org db₁ w₁ h₁ in
      let (users, members) =
        upsert_org_kept platform server m.clerk_org_id m.org_name m.org_slug db w org db₁ w₁ h₁ in
      let (is_user, kept, members') =
        upsert_user-IsUser platform server m.clerk_user_id org m.email m.display_name db₁ w₁ id db₂
          w₂ (OneUser-kept platform server m.clerk_user_id db db₁ users one_user) h₃ in
      let (has, same, kept') =
        upsert_membership-HasRole platform server org id m.role db₂ w₂ u db' w' b
          (OneMembership-kept platform server id org db db₂ (members' ∙ members) (one id org)) h₄ in
      let (p, e, g, r) =
        resolve_principal-role scan m.clerk_user_id org id m.role db' a
          (IsUser-kept platform server m.clerk_user_id id org db₂ db' same is_user) has in
      (
        p,
        e,
        IsOrg-kept platform server m.clerk_org_id org db₁ db' (kept' ∙ kept) known
            ∙ ap some (sym g),
        r,
      )
