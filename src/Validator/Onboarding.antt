-- ===== src/Validator/Onboarding.antt =====
-- Whom Validator.ExtractOnboarding (lib/authengine/onboarding_tokens.go) lets a backend register.
use diene_go_auth_engine.Prelude.{some, true, ◌≡◌, ◌⊎◌, ◌↔◌, arith, eq_iff, inl, inr}
use diene_go_auth_engine.Validator.{Validator, JwtParser, validate, validate_id_token}
use diene_go_auth_engine.Validator.Extraction.{
  OnboardingIdentity, OnboardingTokens, identify, extract_onboarding,
}
use diene_go_auth_engine.Principal.{Principal}
use diene_go_auth_engine.Problems.{ok}
use diene_go_auth_engine.Effect.{Result-cases}

-- One identity, onboarded by itself, with what a registration needs.
abbrev pub MayOnboard : OnboardingTokens → Principal → Principal → OnboardingIdentity → Type 0
MayOnboard tokens access identity i =
    (access.subject ≡ identity.subject)
    × (tokens.authorization ≡ "" ⊎ tokens.authorization ≡ identity.subject)
    × (identity.username ≡ some i.username)
    × (identity.email ≡ some i.email)
    × (identity.email_verified ≡ true)
    × (i.subject ≡ identity.subject)
    × (i.access ≡ access)
    × (i.id ≡ identity)

module _ {W K : Type 0} (v : Validator W K) (tokens : OnboardingTokens) where
  identify_iff :
      (a d : Principal) (i : OnboardingIdentity)
      → (identify v tokens a d ≡ ok i) ↔ MayOnboard tokens a d i
  unfolding identify
  identify_iff a d i = ground (
    arith,
    eq_iff a.subject d.subject,
    eq_iff tokens.authorization "",
    eq_iff tokens.authorization d.subject,
  )

-- ExtractOnboarding yields an identity exactly if the access token validates, audience included, the
-- ID token validates after it, both carry one subject, which is the caller's own where the request
-- names a caller, and the ID token carries the username and a verified email; the identity is made
-- of these.
pub extract_onboarding_iff :
    {W K : Type 0} (jwt : JwtParser W K) (v : Validator W K) (tokens : OnboardingTokens) (w : W)
    (i : OnboardingIdentity)
    → ((extract_onboarding jwt v tokens w).0 ≡ ok i) ↔ (
        ((validate jwt v tokens.access w).0 ≡ ok i.access)
        × ((validate_id_token jwt v tokens.id (validate jwt v tokens.access w).1).0 ≡ ok i.id)
        × MayOnboard tokens i.access i.id i)
unfolding extract_onboarding
extract_onboarding_iff jwt v tokens w i =
    let w' = (validate jwt v tokens.access w).1 in
    elim (Result-cases (validate jwt v tokens.access w).0) [
      | inr (e, q) ↦ ground arith
      | inl (a, q) ↦ elim (Result-cases (validate_id_token jwt v tokens.id w').0) [
        | inr (e, q') ↦ ground arith
        | inl (d, q') ↦ ground (arith, identify_iff v tokens a d i)
      ]
    ]
