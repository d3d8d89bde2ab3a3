-- ===== src/Control/StartupLaws.antt =====
-- When apps/control-plane/src/runtime-config.ts lets a process start.
use donnav.Common.{
  List-cases, ◌⊎◌, inl, inr, ◌∷◌, err, String, Bool, true, false, List, [], ◌∷◌, ◌≡◌, ◌↔◌, arith,
  Option, none, some, ok, string_eq, eq_iff, refl,
}
use donnav.Common.Trim.{trim, lowers_to}
use donnav.Control.Startup.{
  Missing, production, resolve_app_env, resolve_startup_config, Env, StartupConfig, present,
  is_text, unless, missing_production_vars, production_config, jwt,
}

-- A value that is there and not empty.
abbrev pub Present : Option String → Type 0
Present o = (value : String) × (o ≡ some value) × (¬ (value ≡ ""))

present_iff : (o : Option String) → (present o ≡ true) ↔ Present o
present_iff none = ground arith
present_iff (some value) = ground (arith, eq_iff value "")

-- What production requires of its environment.
pub record Complete (env : Env) : Type 0 where
  pub database : Present (env "DATABASE_URL")
  pub jwks : Present (env "AUTH_JWKS_URL")
  pub issuer : Present (env "AUTH_ISSUER")
  pub audience : Present (env "AUTH_AUDIENCE")
  pub webhook : Present (env "CLERK_WEBHOOK_SECRET")
  pub mfa : env "AUTH_REQUIRE_MFA" ≡ some "true"

is_text_iff : (t : String) (o : Option String) → (is_text t o ≡ true) ↔ (o ≡ some t)
is_text_iff t none = ground arith
is_text_iff t (some value) = ground (arith, eq_iff value t)

unless_iff :
    (b : Bool) (name : String) (rest : List String)
    → (unless b name rest ≡ []) ↔ ((b ≡ true) × (rest ≡ []))
unless_iff true name rest = ground arith
unless_iff false name rest = ground arith

missing_production_vars-Complete : (env : Env) → (missing_production_vars env ≡ []) ↔ Complete env
unfolding missing_production_vars
missing_production_vars-Complete env =
    let mfa =
      unless (is_text "true" (env "AUTH_REQUIRE_MFA")) "AUTH_REQUIRE_MFA (must be \"true\")" [] in
    let webhook = unless (present (env "CLERK_WEBHOOK_SECRET")) "CLERK_WEBHOOK_SECRET" mfa in
    let audience = unless (present (env "AUTH_AUDIENCE")) "AUTH_AUDIENCE" webhook in
    let issuer = unless (present (env "AUTH_ISSUER")) "AUTH_ISSUER" audience in
    let jwks = unless (present (env "AUTH_JWKS_URL")) "AUTH_JWKS_URL" issuer in
    ground (
      arith,
      unless_iff (present (env "DATABASE_URL")) "DATABASE_URL" jwks,
      unless_iff (present (env "AUTH_JWKS_URL")) "AUTH_JWKS_URL" issuer,
      unless_iff (present (env "AUTH_ISSUER")) "AUTH_ISSUER" audience,
      unless_iff (present (env "AUTH_AUDIENCE")) "AUTH_AUDIENCE" webhook,
      unless_iff (present (env "CLERK_WEBHOOK_SECRET")) "CLERK_WEBHOOK_SECRET" mfa,
      unless_iff (is_text "true" (env "AUTH_REQUIRE_MFA")) "AUTH_REQUIRE_MFA (must be \"true\")" [],
      present_iff (env "DATABASE_URL"),
      present_iff (env "AUTH_JWKS_URL"),
      present_iff (env "AUTH_ISSUER"),
      present_iff (env "AUTH_AUDIENCE"),
      present_iff (env "CLERK_WEBHOOK_SECRET"),
      is_text_iff "true" (env "AUTH_REQUIRE_MFA"),
    )

-- The configuration of a production process from its environment.
abbrev pub Secured : Env → StartupConfig → Type 0
Secured env c =
    (c.database_url ≡ env "DATABASE_URL")
    × (c.webhook_secret ≡ env "CLERK_WEBHOOK_SECRET")
    × (url : String) × (env "AUTH_JWKS_URL" ≡ some url)
    × (c.auth
        ≡ jwt (record {
          jwks_url = url;
          issuer = env "AUTH_ISSUER";
          audience = env "AUTH_AUDIENCE";
          require_mfa = true;
          mfa_claim = env "AUTH_MFA_CLAIM";
        }))

production_config-Secured :
    (env : Env) (missing : List String) (url : String)
    → env "AUTH_JWKS_URL" ≡ some url
    → missing ≡ []
    → (c : StartupConfig) × (production_config env missing ≡ ok c) × Secured env c
production_config-Secured env [] url e h = (_, refl, (refl, refl, url, e, rw (e) refl))
production_config-Secured env (name ∷ names) url e h = ground arith

production_config-refuses :
    (env : Env) (missing : List String)
    → ¬ (missing ≡ [])
    → (m : Missing) × (production_config env missing ≡ err m) × (¬ (m.missing ≡ []))
production_config-refuses env [] n = absurd (n refl)
production_config-refuses env (name ∷ names) n =
    (record { app_env = production; missing = name ∷ names }, refl, n)

-- An environment that names no kind of process is one of production.
resolve_app_env-unset :
    (env : Env) → env "APP_ENV" ≡ none → env "NODE_ENV" ≡ none → resolve_app_env env ≡ production
unfolding resolve_app_env trim lowers_to
resolve_app_env-unset env a n = rw (a, n) refl

-- A production process starts exactly when its environment is complete, and then it verifies tokens
-- with a second factor demanded, on the database and the webhook secret of the environment; else it
-- refuses, and names something that is missing. So no production process trusts the headers of
-- a request.
pub resolve_startup_config-closed :
    (env : Env)
    → resolve_app_env env ≡ production
    → (Complete env × (c : StartupConfig) × (resolve_startup_config env ≡ ok c) × Secured env c)
      ⊎ ((¬ Complete env)
          × (m : Missing) × (resolve_startup_config env ≡ err m)
          × (¬ (m.missing ≡ [])))
unfolding resolve_startup_config
resolve_startup_config-closed env p =
    let missing = missing_production_vars env in
    elim (List-cases missing) [
      | inl e ↦
          let complete = (missing_production_vars-Complete env).0 e in
          let (url, found, _) = complete.jwks in
          let (c, started, secured) = production_config-Secured env missing url found e in
          rw (p) (inl (complete, c, started, secured))
      | inr (name, names, e) ↦
          let some_missing : ¬ (missing ≡ []) = λ none_missing. cc in
          let (m, refused, n) = production_config-refuses env missing some_missing in
          rw (p) (
            inr (
              λ complete. some_missing ((missing_production_vars-Complete env).1 complete),
              m,
              refused,
              n,
            ))
    ]
