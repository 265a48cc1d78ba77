-- ===== src/Principal.antt =====
-- lib/authengine/principal.go: the identity mapped from a validated claim set, and the
-- registration claim of a backend. `Slugify` of the core-utils library is a parameter.
pub mod Mapping
use diene_go_auth_engine.Prelude.{
  String, Bool, true, false, Option, none, some, List, [], ◌∷◌, ◌==◌, contains, if◌then◌else◌,
}
use diene_go_auth_engine.Text.{replace_dashes}
use diene_go_auth_engine.Time.{Instant, zero_time}
use diene_go_auth_engine.Claims.{
  Claims, claims_text, claims_flag, claims_list, claims_space, claims_instant, clone, claim_subject,
  claim_issuer, claim_audience, claim_expiry, claim_username, claim_email, claim_email_verified,
  claim_roles, claim_scope, claim_home_landscape,
}

pub record Principal : Type 0 where
  pub subject : String
  pub issuer : String
  pub audience : List String
  pub username : Option String
  pub email : Option String
  pub email_verified : Bool
  pub roles : List String
  pub scopes : List String
  pub home_landscape : Option String
  pub expires_at : Instant
  pub claims : Claims

-- The zero value, where Go returns Principal{} or reads a missing part.
abbrev pub or_zero {ℓ} : {A : Type ℓ} → A → Option A → A
or_zero z none = z
or_zero z (some a) = a

unfoldable pub has_role : Principal → String → Bool
has_role p role = contains p.roles role

unfoldable pub has_scope : Principal → String → Bool
has_scope p scope = contains p.scopes scope

module _ (slugify : String → String) where
  -- RegistrationClaim
  unfoldable pub registration_claim : String → String
  registration_claim backend = replace_dashes (slugify backend)

  -- Principal.Registered
  unfoldable pub registered : Principal → String → Bool
  registered p backend = or_zero false (claims_flag p.claims (registration_claim backend))

-- ClaimMapper
pub record ClaimMapper : Type 0 where
  pub roles_claim : String
  pub scope_claim : String
  pub home_landscape_claim : String

-- NewClaimMapper
abbrev pub new_claim_mapper : ClaimMapper
new_claim_mapper = record {
  roles_claim = claim_roles;
  scope_claim = claim_scope;
  home_landscape_claim = claim_home_landscape;
}

-- orDefault
unfoldable pub or_default : String → String → String
or_default value fallback = if value == "" then fallback else value

-- optional
unfoldable pub optional : Claims → String → Option String
optional claims name = claims_text claims name

-- ClaimMapper.Map
unfoldable pub map_claims : ClaimMapper → Claims → Principal
unfolding or_default optional
map_claims m claims = record {
  subject = or_zero "" (claims_text claims claim_subject);
  issuer = or_zero "" (claims_text claims claim_issuer);
  audience = or_zero [] (claims_list claims claim_audience);
  username = optional claims claim_username;
  email = optional claims claim_email;
  email_verified = or_zero false (claims_flag claims claim_email_verified);
  roles = or_zero [] (claims_list claims (or_default m.roles_claim claim_roles));
  scopes = or_zero [] (claims_space claims (or_default m.scope_claim claim_scope));
  home_landscape = optional claims (or_default m.home_landscape_claim claim_home_landscape);
  expires_at = or_zero zero_time (claims_instant claims claim_expiry);
  claims = clone claims;
}
