-- ===== src/Validator/Extraction.antt =====
-- lib/authengine/onboarding_tokens.go: the identity that a backend may register.
use diene_go_auth_engine.Prelude.{String, none, some, [], ◌∷◌, not, ◌&&◌, ◌==◌, if◌then◌else◌}
use diene_go_auth_engine.Value.{text}
use diene_go_auth_engine.Principal.{Principal}
use diene_go_auth_engine.Claims.{claim_email, claim_email_verified, claim_username}
use diene_go_auth_engine.Effect.{Eff, lift, ◌>>=◌}
use diene_go_auth_engine.Problems.{
  Result, err, ok, raise, token_claim_missing, token_subject_mismatch,
}
use diene_go_auth_engine.Validator.{JwtParser, Validator, validate, validate_id_token}

pub record OnboardingTokens : Type 0 where
  pub access : String
  pub id : String
  pub authorization : String

pub record OnboardingIdentity : Type 0 where
  pub subject : String
  pub username : String
  pub email : String
  pub access : Principal
  pub id : Principal

module _ {W K : Type 0} where
  -- The checks of Validator.ExtractOnboarding behind the two validations
  unfoldable pub identify :
      Validator W K → OnboardingTokens → Principal → Principal → Result OnboardingIdentity
  identify v tokens access identity =
      if not (access.subject == identity.subject)
      then err (
          raise v.problems token_subject_mismatch
            "the access token and the ID token do not describe one identity"
            (("access", text access.subject) ∷ ("id", text identity.subject) ∷ []))
      else if not (tokens.authorization == "") && not (tokens.authorization == identity.subject)
      then err (
          raise v.problems token_subject_mismatch "a caller may only onboard its own identity"
            (("caller", text tokens.authorization) ∷ ("body", text identity.subject) ∷ []))
      else elim identity.username [
        | none ↦ err (
            raise v.problems token_claim_missing "the ID token carries no username claim"
              (("claim", text claim_username) ∷ []))
        | some username ↦ elim identity.email [
          | none ↦ err (
              raise v.problems token_claim_missing "the ID token carries no email claim"
                (("claim", text claim_email) ∷ []))
          | some email ↦
              if not identity.email_verified
              then err (
                  raise v.problems token_claim_missing "the ID token email is not verified"
                    (("claim", text claim_email_verified) ∷ []))
              else ok (record {
                subject = identity.subject;
                username = username;
                email = email;
                access = access;
                id = identity;
              })
        ]
      ]

  -- Validator.ExtractOnboarding
  unfoldable pub extract_onboarding :
      JwtParser W K → Validator W K → OnboardingTokens → Eff W OnboardingIdentity
  unfolding validate validate_id_token identify
  extract_onboarding jwt v tokens = do
    access ← validate jwt v tokens.access
    identity ← validate_id_token jwt v tokens.id
    lift (identify v tokens access identity)
