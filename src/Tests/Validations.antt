-- ===== src/Tests/Validations.antt =====
-- A JWT parser with one token's claims, and what the validator makes of it.
use diene_go_auth_engine.Prelude.{
  ℕ, ◌*◌, ◌<◌, ◌≤◌, String, Option, none, some, [], ◌∷◌, Bool, true, false, ◌&&◌, ◌≡◌, ◌⊎◌, ◌↔◌,
  refl, arith, eq_iff, ◌==◌, if◌then◌else◌, Any, ◌≢◌,
}
use diene_go_auth_engine.Claims.{Claims, claim, claims_instant, claims_list, claims_text, unix}
use diene_go_auth_engine.Validator.Trust.{Documented, validated_is_trusted}
use diene_go_auth_engine.Config.{IdpConfig, config_leeway}
use diene_go_auth_engine.Time.{Instant}
use diene_go_auth_engine.Validator.{
  JwtParser, ParseError, Validator, accepted, default_algorithms, rejected, validate,
  validate_id_token,
}
use diene_go_auth_engine.Validator.Extraction.{
  OnboardingIdentity, OnboardingTokens, extract_onboarding,
}
use diene_go_auth_engine.Validator.Onboarding.{MayOnboard, extract_onboarding_iff}
use diene_go_auth_engine.Principal.{Principal, map_claims, new_claim_mapper}
use diene_go_auth_engine.Config.Lifetimes.{config_leeway_lem}
use diene_go_auth_engine.Token.{default_clock_skew}
use diene_go_auth_engine.Value.{flag, int64, lookup, text}
use diene_go_auth_engine.Prelude.Int.{ltb_ℤ, ltb_ℤ_iff, pos, ◌+ℤ◌, ◌<ℤ◌, ◌*ℤ◌}
use diene_go_auth_engine.Problems.{ok, plain}
use diene_go_auth_engine.Tests.Fixtures.{problems, still}

abbrev token_claims : Claims
token_claims =
    ("iss", text "https://idp")
    ∷ ("sub", text "alice")
    ∷ ("aud", text "api")
    ∷ ("exp", int64 (pos 100))
    ∷ ("username", text "al")
    ∷ ("email", text "al@idp")
    ∷ ("email_verified", flag true)
    ∷ []

abbrev wants : Option String → Bool
wants none = true
wants (some audience) = audience == "api"

abbrev refused : ParseError
refused = record {
  cause = plain "invalid";
  carried = none;
  is_expired = false;
  is_issuer = true;
  is_audience = false;
  is_signature = false;
}

abbrev jwt : JwtParser (Unit {0}) String
jwt o t k w = (
  if o.issuer == "https://idp" && wants o.audience && ltb_ℤ o.now (unix (pos 100) +ℤ o.leeway)
      then accepted token_claims
      else rejected refused,
  (k (("kid", text "k1") ∷ []) w).1,
)

jwt-Documented : Documented jwt
unfolding claims_text claims_instant claims_list claim lookup
jwt-Documented o t k w claims h = (
  (λ named. ground (arith, eq_iff o.issuer "https://idp")),
  (unix (pos 100), ground arith, ground (arith, ltb_ℤ_iff o.now (unix (pos 100) +ℤ o.leeway))),
  (λ a e. ("api" ∷ [], ground arith, ground (arith, eq_iff a "api"))),
)

abbrev validator : Validator (Unit {0}) String
validator = record {
  issuer = "https://idp";
  audience = "api";
  keys = record { key = λ id w. (ok "key", w) };
  problems = problems;
  clock = still;
  mapper = new_claim_mapper;
  leeway = default_clock_skew;
  algorithms = default_algorithms;
}

validator-trusts : validator.issuer ≢ ""
validator-trusts h = cc

abbrev caller : Principal
caller = map_claims new_claim_mapper token_claims

validates : (validate jwt validator "t" tt).0 ≡ ok caller
unfolding validate ◌+ℤ◌ unix ◌*ℤ◌
validates = refl

validated_is_trusted_example :
    (caller.issuer ≡ "https://idp")
    × ((now : Instant) × ((validator.clock.now_utc tt).0 ≡ ok now)
        × (now <ℤ caller.expires_at +ℤ validator.leeway))
    × ((validator.audience ≡ "") ⊎ Any (λ x. x ≡ validator.audience) caller.audience)
validated_is_trusted_example =
    validated_is_trusted jwt validator jwt-Documented validator-trusts "t" tt caller validates

abbrev body : OnboardingTokens
body = record { access = "t"; id = "t"; authorization = "alice" }

abbrev identity : OnboardingIdentity
identity = record {
  subject = "alice";
  username = "al";
  email = "al@idp";
  access = caller;
  id = caller;
}

extract_onboarding_iff_example : ((extract_onboarding jwt validator body tt).0 ≡ ok identity) ↔ (
    ((validate jwt validator "t" tt).0 ≡ ok caller)
    × ((validate_id_token jwt validator "t" (validate jwt validator "t" tt).1).0 ≡ ok caller)
    × MayOnboard body caller caller identity)
extract_onboarding_iff_example = extract_onboarding_iff jwt validator body tt identity

abbrev idp : IdpConfig
idp = record {
  issuer = "https://idp";
  audience = "api";
  jwks_uri = "https://idp/jwks";
  algorithms = [];
  clock_skew_seconds = pos 60;
  management = record { endpoint = ""; resource = ""; client_id = ""; client_secret = "" };
}

config_leeway_lem_example :
    (◌≡◌ {A = ℕ} 60 0) × (config_leeway idp ≡ default_clock_skew)
    ⊎ (0 < 60) × (60 ≤ 9223372036) × (config_leeway idp ≡ pos (60 * 1000000000))
    ⊎ (9223372036 < 60) × (config_leeway idp <ℤ pos 0)
config_leeway_lem_example = config_leeway_lem idp 60 refl (omega arith)
