-- ===== src/Validator.antt =====
-- lib/authengine/validator.go: tokens validated against the baked issuer. The JWT library's parser is
-- a parameter.
pub mod Trust
pub mod Extraction
pub mod Onboarding
use diene_go_auth_engine.Prelude.{
  String, Option, none, some, List, [], ◌∷◌, Bool, true, false, not, ◌&&◌, ◌==◌, if◌then◌else◌,
  arith,
}
use diene_go_auth_engine.Value.{Assoc, Value, text}
use diene_go_auth_engine.Principal.{ClaimMapper, Principal, map_claims, new_claim_mapper, or_zero}
use diene_go_auth_engine.Claims.{
  Claims, as_text, claim, claim_email, claim_email_verified, claim_username,
}
use diene_go_auth_engine.Effect.{Clock, Eff, fail, lift, on_err, ◌>>=◌, ◌>>◌}
use diene_go_auth_engine.Time.{Duration, Instant, is_zero}
use diene_go_auth_engine.Problems.{
  Error, Problems, Result, config_invalid, err, ok, plain, provider_unavailable, raise, raise_from,
  signing_key_unknown, token_audience_mismatch, token_claim_missing, token_expired,
  token_issuer_mismatch, token_malformed, token_signature_invalid, token_subject_mismatch,
}
use diene_go_auth_engine.Token.{default_clock_skew}
use diene_go_auth_engine.Cache.{token}

-- The options that `parse` gives the JWT parser; an expiry is always required.
pub record ParserOptions : Type 0 where
  pub methods : List String
  pub issuer : String
  pub leeway : Duration
  pub now : Instant
  pub audience : Option String

-- An error of the JWT parser: what `errors.As` and `errors.Is` find in it
pub record ParseError : Type 0 where
  pub cause : Error
  pub carried : Option Error
  pub is_expired : Bool
  pub is_issuer : Bool
  pub is_audience : Bool
  pub is_signature : Bool

pub data Parsed : Type 0 where
  accepted : Claims → Parsed
  rejected : ParseError → Parsed

-- The VerificationKeys seam
pub record VerificationKeys (W K : Type 0) : Type 0 where
  pub key : String → Eff W K

-- jwt.NewParser(options...).ParseWithClaims: it calls the key function with the token's header.
abbrev pub JwtParser : Type 0 → Type 0 → Type 0
JwtParser W K = ParserOptions → String → (Assoc Value → Eff W K) → W → Parsed × W

abbrev pub default_algorithms : List String
default_algorithms = "RS256" ∷ "RS384" ∷ "RS512" ∷ "ES256" ∷ "ES384" ∷ "ES512" ∷ []

abbrev pub jwk_key_id_header : String
jwk_key_id_header = "kid"

pub record ValidatorOptions (W K : Type 0) : Type 0 where
  pub issuer : String
  pub audience : String
  pub keys : Option (VerificationKeys W K)
  pub problems : Option Problems
  pub clock : Option (Clock W)
  pub mapper : ClaimMapper
  pub leeway : Duration
  pub algorithms : List String

pub record Validator (W K : Type 0) : Type 0 where
  pub issuer : String
  pub audience : String
  pub keys : VerificationKeys W K
  pub problems : Problems
  pub clock : Clock W
  pub mapper : ClaimMapper
  pub leeway : Duration
  pub algorithms : List String

-- mapper == (ClaimMapper{})
unfoldable pub is_zero_mapper : ClaimMapper → Bool
is_zero_mapper m = m.roles_claim == "" && m.scope_claim == "" && m.home_landscape_claim == ""

-- len(algorithms) == 0
unfoldable pub or_default_algorithms : List String → List String
or_default_algorithms [] = default_algorithms
or_default_algorithms (a ∷ algorithms) = a ∷ algorithms

module _ {W K : Type 0} where
  -- NewValidator
  unfoldable pub new_validator : ValidatorOptions W K → Result (Validator W K)
  new_validator options = elim options.problems [
    | none ↦ err (plain "auth-engine validator requires a problem factory")
    | some p ↦
        if options.issuer == ""
        then err (
            raise p config_invalid
              "the OIDC issuer is baked build-time configuration and must not be blank" [])
        else elim options.keys [
          | none ↦ err (raise p config_invalid "a JWKS verification key source is required" [])
          | some keys ↦ elim options.clock [
            | none ↦ err (
                raise p config_invalid "a clock seam is required so token expiry stays injectable"
                  [])
            | some clock ↦ ok (record {
              issuer = options.issuer;
              audience = options.audience;
              keys = keys;
              problems = p;
              clock = clock;
              mapper = if is_zero_mapper options.mapper then new_claim_mapper else options.mapper;
              leeway = if is_zero options.leeway then default_clock_skew else options.leeway;
              algorithms = or_default_algorithms options.algorithms;
            })
          ]
        ]
  ]

  -- The resolution of a key id that is not blank
  unfoldable pub resolve_key : Validator W K → String → Eff W K
  resolve_key v key_id =
      on_err
        (λ e.
          raise_from v.problems signing_key_unknown e
            "the JWKS publishes no key for the token key id" (("keyId", text key_id) ∷ []))
        (v.keys.key key_id)

  -- Validator.keyfunc
  unfoldable pub keyfunc : Validator W K → Assoc Value → Eff W K
  unfolding resolve_key
  keyfunc v header = elim (as_text (claim header jwk_key_id_header)) [
    | none ↦ fail (raise v.problems signing_key_unknown "the token header carries no key id" [])
    | some key_id ↦
        if key_id == ""
        then fail (raise v.problems signing_key_unknown "the token header carries no key id" [])
        else resolve_key v key_id
  ]

  -- Validator.classify, behind the errors that carry a problem
  unfoldable pub classify_rejection : Validator W K → ParseError → Error
  classify_rejection v e =
      if e.is_expired
      then raise_from v.problems token_expired e.cause "the token lifetime has elapsed" []
      else if e.is_issuer
      then raise_from v.problems token_issuer_mismatch e.cause
          "the token was not minted by the trusted issuer" (("expected", text v.issuer) ∷ [])
      else if e.is_audience
      then raise_from v.problems token_audience_mismatch e.cause
          "the token was not minted for this audience" (("expected", text v.audience) ∷ [])
      else if e.is_signature
      then raise_from v.problems token_signature_invalid e.cause
          "the token signature does not verify against the published key" []
      else raise_from v.problems token_malformed e.cause "the token could not be parsed" []

  -- Validator.classify
  unfoldable pub classify : Validator W K → ParseError → Error
  unfolding classify_rejection
  classify v e = or_zero (classify_rejection v e) e.carried

  -- The options of Validator.parse at an instant
  unfoldable pub parser_options : Validator W K → String → Instant → ParserOptions
  parser_options v audience now = record {
    methods = v.algorithms;
    issuer = v.issuer;
    leeway = v.leeway;
    now = now;
    audience = if not (audience == "") then some audience else none;
  }

  -- Validator.parse behind the parser
  unfoldable pub conclude : Validator W K → Parsed → Result Principal
  unfolding classify
  conclude v (rejected e) = err (classify v e)
  conclude v (accepted claims) = ok (map_claims v.mapper claims)

  -- The clock's reading in Validator.parse
  unfoldable pub validator_now : Validator W K → Eff W Instant
  validator_now v =
      on_err
        (λ e.
          raise_from v.problems provider_unavailable e
            "the clock seam could not supply the current instant" [])
        v.clock.now_utc

  -- The parser's run in Validator.parse, at an instant
  unfoldable pub run_parser :
      JwtParser W K → Validator W K → String → String → Instant → Eff W Principal
  unfolding conclude parser_options keyfunc
  run_parser jwt v token audience now w =
      let (parsed, w') = jwt (parser_options v audience now) token (keyfunc v) w in
      (conclude v parsed, w')

  -- Validator.parse
  unfoldable pub parse : JwtParser W K → Validator W K → String → String → Eff W Principal
  unfolding validator_now run_parser
  parse jwt v token audience =
      if token == ""
      then fail (raise v.problems token_malformed "the bearer token is blank" [])
      else (do now ← validator_now v; run_parser jwt v token audience now)

  -- Validator.Validate
  unfoldable pub validate : JwtParser W K → Validator W K → String → Eff W Principal
  unfolding parse
  validate jwt v token = parse jwt v token v.audience

  -- Validator.ValidateIDToken
  unfoldable pub validate_id_token : JwtParser W K → Validator W K → String → Eff W Principal
  unfolding parse
  validate_id_token jwt v token = parse jwt v token ""
