-- ===== src/Access/Tokens.antt =====
-- apps/control-plane/src/auth/token-verifier.ts. The check of a token's signature, issuer, audience
-- and expiry is a function of the library jose, a parameter that gives the claims or throws.
use donnav.Common.{
  String, Bool, false, Option, none, some, get_or, is_true, not, Result, ok, err, ◌&&◌, ◌==◌,
  string_eq, nat_eq, if◌then◌else◌,
}
use donnav.Common.Json.{Value, text, boolean, number, finite, Fields, lookup}

pub data TokenError : Type 0 where
  token_invalid : String → TokenError
  mfa_required : TokenError

-- The configuration without its key, which the library takes.
pub record VerifierConfig : Type 0 where
  pub issuer : Option String
  pub audience : Option String
  pub require_mfa : Option Bool
  pub mfa_claim : Option String
  pub mfa_value : Option String

pub record VerifiedIdentity : Type 0 where
  pub subject : String
  pub email : Option String
  pub claims : Fields

-- `raw === true || raw === 'true' || raw === 1`
abbrev pub is_affirmed : Value → Bool
is_affirmed (boolean b) = b
is_affirmed (text s) = s == "true"
is_affirmed (number (finite n)) = n == 1
is_affirmed _ = false

abbrev is_value : String → Value → Bool
is_value expected (text s) = s == expected
is_value expected _ = false

abbrev claim_satisfied : Option String → Value → Bool
claim_satisfied none raw = is_affirmed raw
claim_satisfied (some expected) raw = is_value expected raw

unfoldable pub mfa_satisfied : VerifierConfig → Fields → Bool
mfa_satisfied config claims =
    claim_satisfied config.mfa_value (lookup claims (get_or config.mfa_claim "mfa"))

abbrev text_of : Value → Option String
text_of (text s) = some s
text_of _ = none

abbrev pub identity_of : String → Fields → VerifiedIdentity
identity_of subject payload = record {
  subject = subject;
  email = text_of (lookup payload "email");
  claims = payload;
}

abbrev pub with_subject : VerifierConfig → Fields → Value → Result TokenError VerifiedIdentity
with_subject config payload (text subject) =
    if subject == ""
    then err (token_invalid "token has no subject")
    else if is_true config.require_mfa && not (mfa_satisfied config payload)
    then err mfa_required
    else ok (identity_of subject payload)
with_subject config payload _ = err (token_invalid "token has no subject")

abbrev pub verified : VerifierConfig → Result String Fields → Result TokenError VerifiedIdentity
verified config (err message) = err (token_invalid message)
verified config (ok payload) = with_subject config payload (lookup payload "sub")

-- `jwtVerify` of a token under an issuer and an audience, with the message of what it throws.
unfoldable pub verify_token :
    (String → Option String → Option String → Result String Fields)
    → String
    → VerifierConfig
    → Result TokenError VerifiedIdentity
verify_token jwt_verify token config =
    verified config (jwt_verify token config.issuer config.audience)
