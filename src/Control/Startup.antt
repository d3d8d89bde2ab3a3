-- ===== src/Control/Startup.antt =====
-- apps/control-plane/src/runtime-config.ts: how the process starts. The environment is a function from
-- names to values.
use donnav.Common.{
  String, Bool, true, false, List, [], ◌∷◌, ◌&&◌, ◌||◌, not, Option, none, some, get_or, is_some,
  Result, ok, err, string_eq, ◌==◌, if◌then◌else◌,
}
use donnav.Common.Trim.{trim, lowers_to}

pub data AppEnv : Type 0 where
  production development test : AppEnv

abbrev pub Env : Type 0
Env = String → Option String

-- The test for `'dev'` and those for the two names, on the trimmed text.
unfoldable pub resolve_app_env : Env → AppEnv
resolve_app_env env =
    let given = get_or (env "APP_ENV") (get_or (env "NODE_ENV") "") in
    if lowers_to (trim given) "development" || lowers_to (trim given) "dev"
    then development
    else if lowers_to (trim given) "test"
    then test
    else production

pub record JwtAuthConfig : Type 0 where
  pub jwks_url : String
  pub issuer : Option String
  pub audience : Option String
  pub require_mfa : Bool
  pub mfa_claim : Option String

pub data AuthConfig : Type 0 where
  jwt : JwtAuthConfig → AuthConfig
  dev_shim : AuthConfig

pub record StartupConfig : Type 0 where
  pub app_env : AppEnv
  pub database_url : Option String
  pub auth : AuthConfig
  pub webhook_secret : Option String

-- The names of what is missing, with the environment; or the configuration.
pub record Missing : Type 0 where
  pub app_env : AppEnv
  pub missing : List String

abbrev pub StartupResolution : Type 0
StartupResolution = Result Missing StartupConfig

abbrev pub present : Option String → Bool
present none = false
present (some value) = not (value == "")

-- `env['AUTH_REQUIRE_MFA'] === 'true'`
abbrev pub is_text : String → Option String → Bool
is_text t none = false
is_text t (some value) = value == t

abbrev pub unless : Bool → String → List String → List String
unless true name rest = rest
unless false name rest = name ∷ rest

unfoldable pub missing_production_vars : Env → List String
missing_production_vars env = unless (present (env "DATABASE_URL")) "DATABASE_URL" (
    unless (present (env "AUTH_JWKS_URL")) "AUTH_JWKS_URL" (
      unless (present (env "AUTH_ISSUER")) "AUTH_ISSUER" (
        unless (present (env "AUTH_AUDIENCE")) "AUTH_AUDIENCE" (
          unless (present (env "CLERK_WEBHOOK_SECRET")) "CLERK_WEBHOOK_SECRET" (
            unless (is_text "true" (env "AUTH_REQUIRE_MFA")) "AUTH_REQUIRE_MFA (must be \"true\")"
              [])))))

abbrev pub jwt_config : Env → String → Bool → AuthConfig
jwt_config env jwks_url require_mfa = jwt (record {
  jwks_url = jwks_url;
  issuer = env "AUTH_ISSUER";
  audience = env "AUTH_AUDIENCE";
  require_mfa = require_mfa;
  mfa_claim = env "AUTH_MFA_CLAIM";
})

abbrev pub production_config : Env → List String → StartupResolution
production_config env [] = ok (record {
  app_env = production;
  database_url = env "DATABASE_URL";
  auth = jwt_config env (get_or (env "AUTH_JWKS_URL") "") true;
  webhook_secret = env "CLERK_WEBHOOK_SECRET";
})
production_config env (name ∷ names) = err (record { app_env = production; missing = name ∷ names })

abbrev pub when_present : Option String → Option String
when_present value = if present value then value else none

abbrev pub local_auth : Env → AuthConfig
local_auth env =
    if present (env "AUTH_JWKS_URL") && is_some (when_present (env "DATABASE_URL"))
    then jwt_config env (get_or (env "AUTH_JWKS_URL") "") (is_text "true" (env "AUTH_REQUIRE_MFA"))
    else dev_shim

abbrev pub resolve_for : AppEnv → Env → StartupResolution
resolve_for production env = production_config env (missing_production_vars env)
resolve_for app_env env = ok (record {
  app_env = app_env;
  database_url = when_present (env "DATABASE_URL");
  auth = local_auth env;
  webhook_secret = when_present (env "CLERK_WEBHOOK_SECRET");
})

unfoldable pub resolve_startup_config : Env → StartupResolution
resolve_startup_config env = resolve_for (resolve_app_env env) env
