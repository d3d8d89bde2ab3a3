-- ===== src/Access/AuthLaws.antt =====
-- Whom apps/control-plane/src/auth lets in: the bearer token, its claims, and the tables.
use donnav.Common.{
  String, true, ◌≡◌, ◌≢◌, ◌↔◌, refl, arith, eq_iff, Option, none, some, Result, ok, err,
}
use donnav.Common.Json.{Value, text, Fields, lookup}
use donnav.Policy.Types.{PrincipalContext}
use donnav.Control.Requests.{AuthOutcome, authenticated}
use donnav.Access.Tenancy.{Tenancy}
use donnav.Access.Principals.{resolve_principal}
use donnav.Access.Tokens.{
  identity_of, mfa_required, token_invalid, VerifierConfig, VerifiedIdentity, TokenError,
  mfa_satisfied, with_subject, verified, verify_token,
}
use donnav.Access.Authenticate.{
  bearer_token, resolved, with_identity, with_token, jwt_authenticator,
}

-- The claims name a subject, and where a second factor is demanded they affirm it.
pub record Claims (config : VerifierConfig) (payload : Fields) (subject : String) : Type 0 where
  pub names : lookup payload "sub" ≡ text subject
  pub named : subject ≢ ""
  pub factor : (config.require_mfa ≡ some true) → mfa_satisfied config payload ≡ true

with_subject-Claims :
    (config : VerifierConfig) (payload : Fields) (sub : Value) (identity : VerifiedIdentity)
    → with_subject config payload sub ≡ ok identity
    → (sub ≡ text identity.subject)
      × (identity.subject ≢ "")
      × ((config.require_mfa ≡ some true) → mfa_satisfied config payload ≡ true)
with_subject-Claims config payload (text s) identity h = ground (arith, eq_iff s "")
with_subject-Claims config payload _ identity h = ground arith

with_subject-identity_of :
    (config : VerifierConfig) (payload : Fields) (s : String)
    → s ≢ ""
    → ((config.require_mfa ≡ some true) → mfa_satisfied config payload ≡ true)
    → with_subject config payload (text s) ≡ ok (identity_of s payload)
with_subject-identity_of config payload s n f = ground (arith, eq_iff s "")

verified-ok :
    (config : VerifierConfig) (r : Result String Fields) (identity : VerifiedIdentity)
    → verified config r ≡ ok identity
    → (payload : Fields) × (r ≡ ok payload)
      × (with_subject config payload (lookup payload "sub") ≡ ok identity)
verified-ok config (ok payload) identity h = (payload, refl, h)
verified-ok config (err message) identity h = ground arith

module _ (verify : String → Result TokenError VerifiedIdentity)
    (resolve : VerifiedIdentity → Option PrincipalContext) (principal : PrincipalContext) where
  resolved-authenticated :
      (o : Option PrincipalContext)
      → resolved verify resolve o ≡ authenticated principal
      → o ≡ some principal
  resolved-authenticated none h = ground arith
  resolved-authenticated (some p) h = ground arith

  with_identity-authenticated :
      (r : Result TokenError VerifiedIdentity)
      → with_identity verify resolve r ≡ authenticated principal
      → (identity : VerifiedIdentity) × (r ≡ ok identity) × (resolve identity ≡ some principal)
  with_identity-authenticated (ok identity) h =
      (identity, refl, resolved-authenticated (resolve identity) h)
  with_identity-authenticated (err mfa_required) h = ground arith
  with_identity-authenticated (err (token_invalid message)) h = ground arith

  with_token-authenticated :
      (o : Option String)
      → with_token verify resolve o ≡ authenticated principal
      → (token : String) × (o ≡ some token)
        × (with_identity verify resolve (verify token) ≡ authenticated principal)
  with_token-authenticated none h = ground arith
  with_token-authenticated (some token) h = (token, refl, h)

module _ (jwt_verify : String → Option String → Option String → Result String Fields)
    (config : VerifierConfig) (scan : Tenancy → Tenancy) (db : Tenancy) where
  -- The authenticator over the verifier and the resolver.
  abbrev pub authenticate : Fields → AuthOutcome
  authenticate headers =
      jwt_authenticator (λ token. verify_token jwt_verify token config)
        (λ identity. resolve_principal scan identity.subject db) headers

  abbrev verify : String → Result TokenError VerifiedIdentity
  verify token = verify_token jwt_verify token config

  abbrev resolve : VerifiedIdentity → Option PrincipalContext
  resolve identity = resolve_principal scan identity.subject db

  -- A request comes from a principal exactly when it bears a token that the library accepts, the
  -- claims of the token name a subject and, where it is demanded, affirm the second factor, and the
  -- tables have this principal for the subject.
  pub jwt_authenticator-authenticated_iff :
      (headers : Fields) (principal : PrincipalContext)
      → (authenticate headers ≡ authenticated principal) ↔ (
          (token : String) × (bearer_token headers ≡ some token)
          × (payload : Fields) × (jwt_verify token config.issuer config.audience ≡ ok payload)
          × (subject : String) × Claims config payload subject
          × (resolve_principal scan subject db ≡ some principal))
  unfolding jwt_authenticator verify_token
  jwt_authenticator-authenticated_iff headers principal = (
    λ h.
        let (token, bears, known) =
          with_token-authenticated verify resolve principal (bearer_token headers) h in
        let (identity, valid, e) =
          with_identity-authenticated verify resolve principal (verify token) known in
        let (payload, accepted, subjected) =
          verified-ok config (jwt_verify token config.issuer config.audience) identity valid in
        let (sub, named, factor) =
          with_subject-Claims config payload (lookup payload "sub") identity subjected in
        (
          token,
          bears,
          payload,
          accepted,
          identity.subject,
          record { names = sub; named = named; factor = factor },
          e,
        ),
    λ (token, bears, payload, accepted, subject, claims, e).
        rw
          (
            bears,
            accepted,
            claims.names,
            with_subject-identity_of config payload subject claims.named claims.factor,
            e,
          )
          refl,
  )
