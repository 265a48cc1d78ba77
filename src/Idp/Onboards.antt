-- ===== src/Idp/Onboards.antt =====
-- The tokens of the fake of testhelper/idp.go round-trip: what a request asks for is what the fake's
-- own validator and the onboarding extraction read.
use diene_go_auth_engine.Prelude.{
  String, [], All, false, ◌≡◌, ◌≢◌, ◌⊎◌, inl, inr, refl, eq_iff, arith, ℕ, ◌<◌, ◌≤◌, ◌^◌, ap,
}
use diene_go_auth_engine.Prelude.Int.{pos, ◌<ℤ◌, ◌+ℤ◌}
use diene_go_auth_engine.Claims.{Claims, unix}
use diene_go_auth_engine.Time.{Instant}
use diene_go_auth_engine.Effect.{Eff}
use diene_go_auth_engine.Problems.{ok}
use diene_go_auth_engine.Principal.{Principal}
use diene_go_auth_engine.Validator.{JwtParser, Validator, validate, validate_id_token, parse}
use diene_go_auth_engine.Validator.Extraction.{
  OnboardingIdentity, OnboardingTokens, extract_onboarding,
}
use diene_go_auth_engine.Validator.Onboarding.{extract_onboarding_iff, MayOnboard}
use diene_go_auth_engine.Text.Words.{IsWord}
use diene_go_auth_engine.Idp.{
  FakeIdp, IdpLibrary, idp_validator, mint_access_token, mint_id_token, mint_token,
}
use diene_go_auth_engine.Idp.Requests.{TokenRequest, default_subject, expiry_of, unix_seconds}
use diene_go_auth_engine.Idp.Accepted.{IsJwt, accepts, described, says, idp_validator-wired}
use diene_go_auth_engine.Idp.Minted.{Apart, reserved_claims}
use diene_go_auth_engine.Idp.Roundtrip.{Describes, Rereads}
use diene_go_auth_engine.Idp.Support.{or_default}
use diene_go_auth_engine.Token.{default_clock_skew}
use diene_go_auth_engine.Deferred.{mint}

-- A request that overrides nothing of the fake's own, whose registration claims are none of the other
-- claims, and whose scopes are words
abbrev pub IsHonest : (String → String) → TokenRequest → Type 0
IsHonest slugify request =
    (request.issuer ≡ "")
    × (request.audience ≡ "")
    × (request.key_id ≡ "")
    × (request.omit_expiry ≡ false)
    × (request.omit_key_id ≡ false)
    × (request.claims ≡ [])
    × All (Apart slugify request.registered) reserved_claims
    × All IsWord request.scopes

-- A token that was minted of a request in a world, with an expiry in whole seconds since the Unix
-- epoch that the parser reads exactly
abbrev pub Minted :
    {W S : Type 0} → FakeIdp W S → TokenRequest → Eff W String → W → String → ℕ → Type 0
Minted f request mint w token s =
    (now : Instant) × ((f.system.clock.now_utc w).0 ≡ ok now)
    × ((mint w).0 ≡ ok token)
    × (unix_seconds (expiry_of request now) ≡ pos s)
    × (0 < s)
    × (s ≤ 2 ^ 53)

module _ {W S K : Type 0} (library : IdpLibrary W S K) (jwt : JwtParser W K)
    (reread : Claims → Claims) (rereads : Rereads reread) (is_jwt : IsJwt library jwt reread)
    (slugify : String → String) (f : FakeIdp W S) (v : Validator W K)
    (wires : idp_validator library f ≡ ok v) (named : f.key_id ≢ "") (request : TokenRequest)
    (honest : IsHonest slugify request) where
  passes :
      (audience wanted : String) (w w' : W) (token : String) (s : ℕ) (later : Instant)
      → Minted f request (mint_token library slugify f request audience) w token s
      → (f.system.clock.now_utc w').0 ≡ ok later
      → later <ℤ unix (pos s) +ℤ default_clock_skew
      → (wanted ≡ "") ⊎ (wanted ≡ audience)
      → (p : Principal) × (parse jwt v token wanted w' ≡ (ok p, (f.system.clock.now_utc w').1))
        × Describes slugify f.issuer audience s request p
  passes audience wanted w w' token s later (now, clock, signs, seconds, positive, small) read live
        for =
      let (i, a, k, e, o, c, apart, words) = honest in
      (
        says library f jwt reread rereads is_jwt slugify request w v token audience now later s
            wires named i k e o c apart words signs clock seconds positive small,
        accepts library f jwt reread rereads is_jwt slugify request w v token audience now later s
            wires named i k e o c apart words signs clock seconds positive small w' wanted read live
            for,
        described library f jwt reread rereads is_jwt slugify request w v token audience now later s
            wires named i k e o c apart words signs clock seconds positive small,
      )

  -- Minting and validating round-trip: where the JWT library and its JSON do what they document, an
  -- access token that the fake minted of a request that overrides nothing is accepted by the
  -- validator that the fake wires, until its expiry and the leeway have passed, and the principal is
  -- the one that the request describes.
  pub access_token_round_trip :
      (w w' : W) (token : String) (s : ℕ) (later : Instant)
      → Minted f request (mint_access_token library slugify f request) w token s
      → (f.system.clock.now_utc w').0 ≡ ok later
      → later <ℤ unix (pos s) +ℤ default_clock_skew
      → (p : Principal) × (validate jwt v token w' ≡ (ok p, (f.system.clock.now_utc w').1))
        × Describes slugify f.issuer f.audience s request p
  unfolding validate mint_access_token or_default
  access_token_round_trip w w' token s later m clock live =
      let same : or_default request.audience f.audience ≡ f.audience =
        ground (arith, honest.1, eq_iff request.audience "") in
      passes f.audience v.audience w w' token s later (ground (arith, m, same)) clock live
        (inr (ground (arith, idp_validator-wired library f v wires)))

  id_token_round_trip :
      (w w' : W) (token : String) (s : ℕ) (last : Instant)
      → Minted f request (mint_id_token library slugify f request) w token s
      → (f.system.clock.now_utc w').0 ≡ ok last
      → last <ℤ unix (pos s) +ℤ default_clock_skew
      → (p : Principal) × (validate_id_token jwt v token w' ≡ (ok p, (f.system.clock.now_utc w').1))
        × Describes slugify f.issuer "fake-idp-client" s request p
  unfolding validate_id_token mint_id_token or_default
  id_token_round_trip w w' token s last m clock live =
      let same : or_default request.audience "fake-idp-client" ≡ "fake-idp-client" =
        ground (arith, honest.1, eq_iff request.audience "") in
      passes "fake-idp-client" "" w w' token s last (ground (arith, m, same)) clock live (inl refl)

  may_onboard :
      (p d : Principal) (audience client access id authorization : String) (s1 s2 : ℕ)
      → Describes slugify f.issuer audience s1 request p
      → Describes slugify f.issuer client s2 request d
      → request.username ≢ ""
      → request.email ≢ ""
      → request.email_unverified ≡ false
      → (authorization ≡ "") ⊎ (authorization ≡ or_default request.subject default_subject)
      → MayOnboard
          (record { access = access; id = id; authorization = authorization })
          p
          d
          (record {
            subject = d.subject;
            username = request.username;
            email = request.email;
            access = p;
            id = d;
          })
  may_onboard p d audience client access id authorization s1 s2 dp dd u e ev who =
      ground
        (arith, dp.0, dd.0, dd.3, dd.4, dd.5, eq_iff request.username "", eq_iff request.email "")

  -- Onboarding with the fake's tokens: under the same conditions, where the request names a username
  -- and a verified email, the access token and the ID token that the fake minted of it make
  -- ExtractOnboarding yield an identity of the request's subject, username and email, for a caller
  -- who is not named or is that subject.
  pub fake_tokens_onboard :
      (w1 w2 w : W) (access id authorization : String) (s1 s2 : ℕ) (later last : Instant)
      → Minted f request (mint_access_token library slugify f request) w1 access s1
      → Minted f request (mint_id_token library slugify f request) w2 id s2
      → (f.system.clock.now_utc w).0 ≡ ok later
      → later <ℤ unix (pos s1) +ℤ default_clock_skew
      → (f.system.clock.now_utc (f.system.clock.now_utc w).1).0 ≡ ok last
      → last <ℤ unix (pos s2) +ℤ default_clock_skew
      → request.username ≢ ""
      → request.email ≢ ""
      → request.email_unverified ≡ false
      → (authorization ≡ "") ⊎ (authorization ≡ or_default request.subject default_subject)
      → (i : OnboardingIdentity) × ((extract_onboarding jwt v
            (record { access = access; id = id; authorization = authorization })
            w).0
          ≡ ok i)
        × (i.subject ≡ or_default request.subject default_subject)
        × (i.username ≡ request.username)
        × (i.email ≡ request.email)
  fake_tokens_onboard w1 w2 w access id authorization s1 s2 later last m1 m2 c1 l1 c2 l2 u e ev
        who =
      let w' = (f.system.clock.now_utc w).1 in
      let (p, vp, dp) = access_token_round_trip w1 w access s1 later m1 c1 l1 in
      let (d, vd, dd) = id_token_round_trip w2 w' id s2 last m2 c2 l2 in
      let tokens : OnboardingTokens = record {
        access = access;
        id = id;
        authorization = authorization;
      } in
      let i : OnboardingIdentity = record {
        subject = d.subject;
        username = request.username;
        email = request.email;
        access = p;
        id = d;
      } in
      (
        i,
        (extract_onboarding_iff jwt v tokens w i).1 (
          ap (λ x. x.0) vp,
          rw vp (ap (λ x. x.0) vd),
          may_onboard p d f.audience "fake-idp-client" access id authorization s1 s2 dp dd u e ev
              who,
        ),
        dd.0,
        refl,
        refl,
      )
