-- ===== src/Idp/Requests.antt =====
-- What a request of testhelper/idp.go makes of a token: its claims and its header.
use diene_go_auth_engine.Prelude.{
  String, List, [], ◌∷◌, Bool, true, false, not, ◌==◌, ◌/◌, ℕ, if◌then◌else◌,
}
use diene_go_auth_engine.Prelude.Int.{ℤ, pos, negsuc, ◌-ℤ◌}
use diene_go_auth_engine.Time.{Instant, add, is_zero}
use diene_go_auth_engine.Value.{Assoc, Value, insert, text, flag, int64, list}
use diene_go_auth_engine.Claims.{
  Claims, claim_audience, claim_email, claim_email_verified, claim_expiry, claim_home_landscape,
  claim_issuer, claim_roles, claim_scope, claim_subject, claim_username,
}
use diene_go_auth_engine.Principal.{registration_claim}
use diene_go_auth_engine.Token.{access_token_lifetime}
use diene_go_auth_engine.Idp.Support.{or_default, to_any, join_scopes}

abbrev pub default_issuer : String
default_issuer = "https://api.lithium.alcohol.mew.cluster.atomi.cloud"

abbrev pub default_audience : String
default_audience = "alcohol-zinc"

abbrev pub default_key_id : String
default_key_id = "fake-idp-key-1"

abbrev pub default_subject : String
default_subject = "user-1"

abbrev pub default_key_bits : ℕ
default_key_bits = 2048

abbrev pub header_key_id : String
header_key_id = "kid"

pub record TokenRequest : Type 0 where
  pub subject : String
  pub username : String
  pub email : String
  pub email_unverified : Bool
  pub roles : List String
  pub scopes : List String
  pub home_landscape : String
  pub registered : List String
  pub claims : Claims
  pub issuer : String
  pub audience : String
  pub key_id : String
  pub expires_at : Instant
  pub omit_expiry : Bool
  pub omit_key_id : Bool

-- A time's whole seconds since the Unix epoch, `now.Unix()`
unfoldable pub unix_seconds : Instant → ℤ
unix_seconds (pos n) = pos (n / 1000000000) -ℤ pos 62135596800
unix_seconds (negsuc n) = negsuc (n / 1000000000) -ℤ pos 62135596800

-- `if condition { claims[name] = value }`
unfoldable pub put_if : Bool → String → Value → Claims → Claims
unfolding insert
put_if true name value claims = insert name value claims
put_if false name value claims = claims

-- `len(values) > 0`
abbrev pub is_nonempty : List String → Bool
is_nonempty [] = false
is_nonempty (value ∷ values) = true

-- maps.Copy(claims, extra)
unfoldable pub copy_claims : Claims → Claims → Claims
unfolding insert
copy_claims [] claims = claims
copy_claims ((name, value) ∷ extra) claims = copy_claims extra (insert name value claims)

module _ (slugify : String → String) where
  -- The registration claims of `mint`
  unfoldable pub put_registered : List String → Claims → Claims
  unfolding insert
  put_registered [] claims = claims
  put_registered (backend ∷ backends) claims =
      put_registered backends (insert (registration_claim slugify backend) (text "true") claims)

-- The claims that every token of `mint` carries
unfoldable pub base_claims : String → TokenRequest → String → Instant → Claims
base_claims issuer request audience now =
    (claim_subject, text (or_default request.subject default_subject))
    ∷ (claim_issuer, text (or_default request.issuer issuer))
    ∷ (claim_audience, text audience)
    ∷ ("iat", int64 (unix_seconds now))
    ∷ []

-- The expiry of `mint`
unfoldable pub expiry_of : TokenRequest → Instant → Instant
expiry_of request now =
    if is_zero request.expires_at then add now access_token_lifetime else request.expires_at

-- The claims of `mint` that a request names, on the base ones
unfoldable pub named_claims : TokenRequest → Instant → Claims → Claims
unfolding put_if expiry_of unix_seconds join_scopes
named_claims request now base =
    let c1 =
      put_if (not request.omit_expiry) claim_expiry (int64 (unix_seconds (expiry_of request now)))
        base in
    let c2 = put_if (not (request.username == "")) claim_username (text request.username) c1 in
    let c3 = put_if (not (request.email == "")) claim_email (text request.email) c2 in
    let c4 =
      put_if (not (request.email == "")) claim_email_verified (flag (not request.email_unverified))
        c3 in
    let c5 = put_if (is_nonempty request.roles) claim_roles (list (to_any request.roles)) c4 in
    let c6 =
      put_if (is_nonempty request.scopes) claim_scope (text (join_scopes request.scopes)) c5 in
    put_if (not (request.home_landscape == "")) claim_home_landscape (text request.home_landscape)
      c6

-- The token's header in `mint`
unfoldable pub minted_header : Assoc Value → String → TokenRequest → Assoc Value
unfolding insert
minted_header header key_id request =
    if not request.omit_key_id
    then insert header_key_id (text (or_default request.key_id key_id)) header
    else header
