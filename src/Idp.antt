-- ===== src/Idp.antt =====
-- testhelper/idp.go: the fake identity provider, which signs real tokens and wires a validator and a
-- guard to itself. RSA keys, the JWT library's signing and the settable clock are parameters.
pub mod Support
pub mod Requests
pub mod Minted
pub mod Roundtrip
pub mod Accepted
pub mod Onboards
use Prim.Native.String
use diene_go_auth_engine.Prelude.{
  String, Option, none, some, List, [], ◌∷◌, Bool, true, false, not, ◌==◌, ◌/◌, ℕ, nat_eq,
  if◌then◌else◌, arith,
}
use diene_go_auth_engine.Prelude.Int.{ℤ, pos, negsuc, ◌-ℤ◌}
use diene_go_auth_engine.Time.{Instant, Duration, add, is_zero, zero_time}
use diene_go_auth_engine.Value.{Assoc, Value, insert, text, flag, int64, list}
use diene_go_auth_engine.Effect.{Clock, Eff, fail, lift, pure, ◌>>=◌, ◌>>◌}
use diene_go_auth_engine.Problems.{
  Problems, ProblemLibrary, ProblemType, Result, err, ok, new_problems, plain,
}
use diene_go_auth_engine.Claims.{
  Claims, claim_audience, claim_email, claim_email_verified, claim_expiry, claim_home_landscape,
  claim_issuer, claim_roles, claim_scope, claim_subject, claim_username,
}
use diene_go_auth_engine.Principal.{or_zero, registration_claim}
use diene_go_auth_engine.Token.{access_token_lifetime}
use diene_go_auth_engine.Validator.{Validator, VerificationKeys, new_validator}
use diene_go_auth_engine.Guard.{Guard, new_guard}
use diene_go_auth_engine.Fakes.{fixed_now}
use diene_go_auth_engine.Idp.Support.{
  ErrorPortal, or_default, sample_error_portal, to_any, join_scopes,
}
use diene_go_auth_engine.Idp.Requests.{
  TokenRequest, base_claims, default_key_bits, minted_header, default_issuer, named_claims,
  default_audience, put_registered, copy_claims, default_key_id,
}

pub record FakeIdpOptions : Type 0 where
  pub issuer : String
  pub audience : String
  pub key_id : String
  pub instant : Instant
  pub portal : Option ErrorPortal
  pub extra_problems : List ProblemType
  pub key_bits : ℕ

-- mocks.InMemorySystem: a clock that a test sets
pub record InMemorySystem (W : Type 0) : Type 0 where
  pub clock : Clock W
  pub set_now : Instant → W → W

-- What the fake calls of crypto/rsa, the JWT library and the mocks: S are private keys, K public ones.
pub record IdpLibrary (W S K : Type 0) : Type 0 where
  pub generate_key : ℕ → Eff W S
  pub public_key : S → K
  pub new_system : Instant → W → InMemorySystem W × W
  pub new_header : Assoc Value
  pub sign : S → Assoc Value → Claims → Result String

pub record FakeIdp (W S : Type 0) : Type 0 where
  pub issuer : String
  pub audience : String
  pub key_id : String
  pub key : S
  pub system : InMemorySystem W
  pub problems : Problems

module _ {W K : Type 0} where
  -- The keys of a FakeIDP: exactly one key id is published.
  unfoldable pub fake_key : String → K → String → Eff W K
  fake_key published key key_id =
      if not (key_id == published)
      then fail (plain (String.◌++◌ "fake IdP publishes no key " key_id))
      else pure key

module _ {W S K : Type 0} (library : IdpLibrary W S K) where
  -- NewFakeIDP
  unfoldable pub new_fake_idp :
      {C : Type 0} → ProblemLibrary ErrorPortal C → FakeIdpOptions → Eff W (FakeIdp W S)
  unfolding new_problems or_default
  new_fake_idp problem_library options = do
    key ←
        library.generate_key
          (if nat_eq options.key_bits 0 then default_key_bits else options.key_bits)
    problems ← lift (
        new_problems problem_library (or_zero sample_error_portal options.portal)
          options.extra_problems)
    λ w.
        let (system, w') =
          library.new_system (if is_zero options.instant then fixed_now else options.instant) w in
        (
          ok (record {
            issuer = or_default options.issuer default_issuer;
            audience = or_default options.audience default_audience;
            key_id = or_default options.key_id default_key_id;
            key = key;
            system = system;
            problems = problems;
          }),
          w',
        )

  -- FakeIDP.Keys
  unfoldable pub idp_keys : FakeIdp W S → VerificationKeys W K
  unfolding fake_key
  idp_keys f = record { key = fake_key f.key_id (library.public_key f.key) }

  -- FakeIDP.Validator
  unfoldable pub idp_validator : FakeIdp W S → Result (Validator W K)
  unfolding new_validator idp_keys
  idp_validator f = new_validator (record {
    issuer = f.issuer;
    audience = f.audience;
    keys = some (idp_keys f);
    problems = some f.problems;
    clock = some f.system.clock;
    mapper = record { roles_claim = ""; scope_claim = ""; home_landscape_claim = "" };
    leeway = pos 0;
    algorithms = [];
  })

  module _ (slugify : String → String) where
    -- The claims of `mint`
    unfoldable pub minted_claims : FakeIdp W S → TokenRequest → String → Instant → Claims
    unfolding base_claims named_claims put_registered copy_claims
    minted_claims f request audience now = copy_claims request.claims (
        put_registered slugify request.registered
          (named_claims request now (base_claims f.issuer request audience now)))

    -- FakeIDP.mint
    unfoldable pub mint_token : FakeIdp W S → TokenRequest → String → Eff W String
    unfolding minted_claims minted_header
    mint_token f request audience = do
      now ← f.system.clock.now_utc
      lift (
          library.sign f.key (minted_header library.new_header f.key_id request)
            (minted_claims f request audience now))

    -- FakeIDP.MintAccessToken
    unfoldable pub mint_access_token : FakeIdp W S → TokenRequest → Eff W String
    unfolding mint_token or_default
    mint_access_token f request = mint_token f request (or_default request.audience f.audience)

    -- FakeIDP.MintIDToken
    unfoldable pub mint_id_token : FakeIdp W S → TokenRequest → Eff W String
    unfolding mint_token or_default
    mint_id_token f request = mint_token f request (or_default request.audience "fake-idp-client")

-- The next instant of FakeIDP.Advance; a clock that fails gives the zero time.
unfoldable pub advanced : Result Instant → Duration → Instant
advanced (ok now) by_ = add now by_
advanced (err e) by_ = add zero_time by_

module _ {W S : Type 0} where
  -- FakeIDP.Guard
  unfoldable pub idp_guard : FakeIdp W S → Result (Guard W)
  unfolding new_guard
  idp_guard f =
      new_guard (record { problems = some f.problems; checker = none; logs = none; clock = none })

  -- FakeIDP.Advance
  unfoldable pub advance : FakeIdp W S → Duration → W → W
  unfolding advanced
  advance f by_ w = let (r, w') = f.system.clock.now_utc w in f.system.set_now (advanced r by_) w'
