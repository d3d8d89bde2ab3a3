-- ===== src/Access/Authenticate.antt =====
-- apps/control-plane/src: principal.ts and auth/authenticate.ts. Headers are properties that hold a
-- text or a list of texts.
use donnav.Common.{
  String, List, [], Option, none, some, map, filter, not, Result, ok, err, ◌==◌, string_eq,
  if◌then◌else◌,
}
use donnav.Common.Json.{Value, text, array, item, Fields, lookup}
use donnav.Common.Trim.{trim, split_at, after_word, after_spaces}
use donnav.Domain.Values.{Role, owner, admin, executive, team_lead, team_member, contractor}
use donnav.Policy.Types.{ActorKind, human, agent, PrincipalContext}
use donnav.Control.Requests.{AuthOutcome, authenticated, refused}
use donnav.Access.Tokens.{TokenError, token_invalid, mfa_required, VerifiedIdentity}

abbrev pub first_string : Value → Option String
first_string (text s) = some s
first_string (array (item (text s) rest)) = some s
first_string _ = none

-- The parts between commas, code 44.
abbrev csv_parts : Option String → List String
csv_parts none = []
csv_parts (some raw) =
    if raw == "" then [] else filter (λ s. not (s == "")) (map trim (split_at 44 raw))

unfoldable pub csv : Value → List String
csv value = csv_parts (first_string value)

abbrev actor_kind_of : Option String → ActorKind
actor_kind_of none = agent
actor_kind_of (some s) = if s == "human" then human else agent

-- The role of a text that passed `isRole`.
unfoldable pub role_of : String → Option Role
role_of s =
    if s == "owner"
    then some owner
    else if s == "admin"
    then some admin
    else if s == "executive"
    then some executive
    else if s == "team_lead"
    then some team_lead
    else if s == "team_member"
    then some team_member
    else if s == "contractor"
    then some contractor
    else none

abbrev with_role : String → String → Fields → Option Role → Option PrincipalContext
with_role user_id organization_id headers none = none
with_role user_id organization_id headers (some role) = some (record {
  user_id = user_id;
  organization_id = organization_id;
  role = role;
  actor_kind = actor_kind_of (first_string (lookup headers "x-donna-actor-kind"));
  team_ids = csv (lookup headers "x-donna-teams");
  project_ids = csv (lookup headers "x-donna-projects");
})

abbrev dev_principal :
    Option String → Option String → Option String → Fields → Option PrincipalContext
dev_principal (some user_id) (some organization_id) (some role_raw) headers =
    with_role user_id organization_id headers (role_of role_raw)
dev_principal _ _ _ headers = none

unfoldable pub dev_principal_from_headers : Fields → Option PrincipalContext
dev_principal_from_headers headers =
    dev_principal (first_string (lookup headers "x-donna-user-id"))
      (first_string (lookup headers "x-donna-org-id"))
      (first_string (lookup headers "x-donna-role")) headers

abbrev pub token_after : Option String → Option String
token_after none = none
token_after (some rest) = after_spaces rest

abbrev pub token_of_header : Option String → Option String
token_of_header none = none
token_of_header (some value) = token_after (after_word "bearer" value)

-- `/^Bearer\s+(.+)$/i` on the header `authorization`.
unfoldable pub bearer_token : Fields → Option String
bearer_token headers = token_of_header (first_string (lookup headers "authorization"))

abbrev dev_outcome : Option PrincipalContext → AuthOutcome
dev_outcome none = refused 401 "unauthenticated"
dev_outcome (some principal) = authenticated principal

unfoldable pub dev_authenticator : Fields → AuthOutcome
dev_authenticator headers = dev_outcome (dev_principal_from_headers headers)

module _ (verify : String → Result TokenError VerifiedIdentity)
    (resolve : VerifiedIdentity → Option PrincipalContext) where
  abbrev pub resolved : Option PrincipalContext → AuthOutcome
  resolved none = refused 403 "no_account"
  resolved (some principal) = authenticated principal

  abbrev pub with_identity : Result TokenError VerifiedIdentity → AuthOutcome
  with_identity (err mfa_required) = refused 403 "mfa_required"
  with_identity (err (token_invalid message)) = refused 401 "invalid_token"
  with_identity (ok identity) = resolved (resolve identity)

  abbrev pub with_token : Option String → AuthOutcome
  with_token none = refused 401 "missing_bearer_token"
  with_token (some token) = with_identity (verify token)

  unfoldable pub jwt_authenticator : Fields → AuthOutcome
  jwt_authenticator headers = with_token (bearer_token headers)
