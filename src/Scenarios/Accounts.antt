-- ===== src/Scenarios/Accounts.antt =====
-- Provisioning events and the requests of the user they are about (apps/control-plane).
use donnav.Common.{
  ◌⊎◌, inl, inr, sym, ◌∙◌, String, true, [], ◌∷◌, ◌≡◌, ◌↔◌, refl, none, some, ok, Option, Result,
  string_eq,
}
use donnav.Common.Json.{Value, text, object, Fields, no_fields, field, lookup}
use donnav.Domain.Values.{team_member, owner}
use donnav.Policy.Types.{human, PrincipalContext}
use donnav.Control.Requests.{authenticated}
use donnav.Access.Tenancy.{Tenancy, AccessServer, Rearranges}
use donnav.Access.Principals.{resolve_principal}
use donnav.Access.Webhook.{WebhookError, SvixHeaders, svix_headers, post_webhook}
use donnav.Access.WebhookLaws.{Applied, post_webhook-signed}
use donnav.Access.ClerkEvents.{parse_clerk_event, ClerkEvent, MembershipSync, parse_deleted_id, str}
use donnav.Access.Provisioning.{
  handle_event, revoke_user, sync_membership, upsert_org, upsert_user, upsert_membership,
  org_id_by_external, user_id_by_external,
}
use donnav.Access.Revocation.{handle_event-revokes}
use donnav.Access.Upserts.{OneUser, OneMembership}
use donnav.Access.Membership.{sync_membership-resolves}
use donnav.Access.Tokens.{VerifierConfig}
use donnav.Access.Authenticate.{bearer_token}
use donnav.Access.AuthLaws.{Claims, authenticate, jwt_authenticator-authenticated_iff}
use donnav.Scenarios.Commits.{platform}

-- One user of the provider's identifier `u_ada`, who owns the organization.
abbrev tables : Tenancy
tables = record {
  organizations =
      record {
        id = "acme";
        name = "Acme";
        slug = "acme";
        external_auth_id = some "org_1";
        created_at = 0;
        updated_at = 0;
      }
      ∷ [];
  users =
      record {
        id = "ada";
        organization_id = "acme";
        email = "ada@acme.test";
        display_name = "Ada";
        external_auth_id = some "u_ada";
        created_at = 0;
        updated_at = 0;
      }
      ∷ [];
  memberships =
      record {
        id = "m1";
        organization_id = "acme";
        user_id = "ada";
        team_id = none;
        role = owner;
        created_at = 0;
      }
      ∷ [];
  project_memberships = [];
}

-- A database without constraints, that answers rows as they were written.
abbrev scan : Tenancy → Tenancy
scan db = db

abbrev server : AccessServer String
server = record { violates = λ db. none; scan = scan }

scan-Rearranges : Rearranges scan
scan-Rearranges = record {
  users = λ db u. (λ i. i, λ i. i);
  memberships = λ db m. (λ i. i, λ i. i);
}

abbrev deletion : ClerkEvent
deletion = record { type = "user.deleted"; payload = field "id" (text "u_ada") no_fields }

names_ada : parse_deleted_id deletion.payload ≡ ok "u_ada"
unfolding parse_deleted_id str lookup
names_ada = refl

deleted : (handle_event platform server deletion tables 0).0 ≡ ok true
unfolding handle_event parse_deleted_id str lookup revoke_user
deleted = refl

handle_event-revokes_example :
    resolve_principal scan "u_ada" (handle_event platform server deletion tables 0).1 ≡ none
handle_event-revokes_example =
    handle_event-revokes platform server scan deletion "u_ada" tables 0 scan-Rearranges refl
      names_ada deleted

abbrev demotion : MembershipSync
demotion = record {
  clerk_org_id = "org_1";
  org_name = "Acme";
  org_slug = "acme";
  clerk_user_id = "u_ada";
  email = "ada@acme.test";
  display_name = "Ada";
  role = team_member;
}

abbrev demoted : Tenancy
demoted = record tables {
  organizations =
      record {
        id = "acme";
        name = "Acme";
        slug = "acme";
        external_auth_id = some "org_1";
        created_at = 0;
        updated_at = 0;
      }
      ∷ [];
  memberships =
      record {
        id = "m1";
        organization_id = "acme";
        user_id = "ada";
        team_id = none;
        role = team_member;
        created_at = 0;
      }
      ∷ [];
}

synchronized : sync_membership platform server demotion tables 0 ≡ ok (tt, demoted, 0)
unfolding sync_membership upsert_org upsert_user upsert_membership org_id_by_external
    user_id_by_external
synchronized = refl

one_user : OneUser platform server "u_ada" tables
one_user u v (inl a) (inl b) p q = a ∙ sym b
one_user u v (inl a) (inr y) p q = elim y [ ]
one_user u v (inr x) j p q = elim x [ ]

one_membership : (user_id org : String) → OneMembership platform server user_id org tables
one_membership user_id org m n (inl a) (inl b) p q = a ∙ sym b
one_membership user_id org m n (inl a) (inr y) p q = elim y [ ]
one_membership user_id org m n (inr x) j p q = elim x [ ]

sync_membership-resolves_example :
    (p : PrincipalContext) × (resolve_principal scan "u_ada" demoted ≡ some p)
    × (org_id_by_external demoted "org_1" ≡ some p.organization_id)
    × (p.role ≡ team_member)
sync_membership-resolves_example =
    sync_membership-resolves platform server scan demotion tables 0 tt demoted 0 scan-Rearranges
      scan-Rearranges one_user one_membership synchronized

-- A library that accepts every token as one of `u_ada`.
abbrev jwt_verify : String → Option String → Option String → Result String Fields
jwt_verify token issuer audience = ok (field "sub" (text "u_ada") no_fields)

abbrev config : VerifierConfig
config = record {
  issuer = some "https://id.acme.test";
  audience = none;
  require_mfa = some true;
  mfa_claim = none;
  mfa_value = none;
}

abbrev headers : Fields
headers = field "authorization" (text "Bearer t0ken") no_fields

abbrev ada : PrincipalContext
ada = record {
  user_id = "ada";
  organization_id = "acme";
  role = owner;
  actor_kind = human;
  team_ids = [];
  project_ids = [];
}

jwt_authenticator-authenticated_iff_example :
    (authenticate jwt_verify config scan tables headers ≡ authenticated ada) ↔ (
      (token : String) × (bearer_token headers ≡ some token)
      × (payload : Fields) × (jwt_verify token config.issuer config.audience ≡ ok payload)
      × (subject : String) × Claims config payload subject
      × (resolve_principal scan subject tables ≡ some ada))
jwt_authenticator-authenticated_iff_example =
    jwt_authenticator-authenticated_iff jwt_verify config scan tables headers ada

-- A library that takes every body for the deletion of the user.
abbrev verify : String → SvixHeaders → Result (WebhookError String) Value
verify raw_body given = ok (
    object (
      field "type" (text "user.deleted")
        (field "data" (object (field "id" (text "u_ada") no_fields)) no_fields)))

post_webhook-signed_example :
    let r = post_webhook platform server verify "{}" headers tables 0 in
    (r.1 ≡ tables)
    ⊎ ((payload : Value) × (verify "{}" (svix_headers headers) ≡ ok payload)
        × (event : ClerkEvent) × (parse_clerk_event payload ≡ ok event)
        × Applied platform server verify event tables 0 r)
post_webhook-signed_example = post_webhook-signed platform server verify "{}" headers tables 0
