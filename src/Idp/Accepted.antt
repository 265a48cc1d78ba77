-- ===== src/Idp/Accepted.antt =====
-- A token that the fake of testhelper/idp.go mints passes the validation that the fake wires.
use diene_go_auth_engine.Prelude.{
  String, some, none, [], All, true, false, ◌==◌, ◌≡◌, ◌≢◌, ◌⊎◌, inl, inr, eq_iff, refl, arith, ℕ,
  ◌<◌, ◌≤◌, ◌^◌, Bool-cases, contains, ap, ◌∙◌, contains_iff,
}
use diene_go_auth_engine.Prelude.Int.{pos, ◌<ℤ◌, ◌+ℤ◌}
use diene_go_auth_engine.Value.{Assoc, Value, text, int64, null, insert}
use diene_go_auth_engine.Claims.{Claims, claim, claim_audience, claim_expiry, claim_issuer, unix}
use diene_go_auth_engine.Time.{Instant, is_zero}
use diene_go_auth_engine.Effect.{Eff}
use diene_go_auth_engine.Problems.{ok}
use diene_go_auth_engine.Principal.{Principal, map_claims, new_claim_mapper}
use diene_go_auth_engine.Validator.{
  JwtParser, ParserOptions, Validator, accepted, default_algorithms, keyfunc, parse, new_validator,
  is_zero_mapper, or_default_algorithms, resolve_key, conclude, parser_options, run_parser,
  validator_now,
}
use diene_go_auth_engine.Text.Words.{IsWord}
use diene_go_auth_engine.Idp.{
  FakeIdp, IdpLibrary, idp_keys, idp_validator, mint_token, minted_claims, fake_key,
}
use diene_go_auth_engine.Idp.Requests.{
  TokenRequest, minted_header, expiry_of, unix_seconds, header_key_id, copy_claims,
}
use diene_go_auth_engine.Idp.Minted.{
  Apart, full, reserved_claims, claim-insert, full-audience, full-expiry, full-issuer,
  full-not_before,
}
use diene_go_auth_engine.Idp.Roundtrip.{Rereads, Describes, full-Describes}
use diene_go_auth_engine.Idp.Support.{or_default}
use diene_go_auth_engine.Token.{default_clock_skew}

-- What the JWT library documents of a token that SignedString made: it is not blank, and its parser
-- accepts it, with the claims as they are read back, where the key function answers the read header
-- with the public key, the algorithm and the issuer are the asked ones, the expiry is there and not
-- past by more than the leeway, the audience is the asked one, and there is no nbf claim.
pub record IsJwt {W S K : Type 0} (library : IdpLibrary W S K) (jwt : JwtParser W K)
    (reread : Claims → Claims) : Type 0 where
  pub signed-nonblank :
      (key : S) (header : Assoc Value) (c : Claims) (token : String)
      → library.sign key header c ≡ ok token
      → token ≢ ""
  pub verifies :
      (key : S) (header : Assoc Value) (c : Claims) (token : String) (o : ParserOptions)
      (k : Assoc Value → Eff W K) (w : W) (s : ℕ)
      → library.sign key header c ≡ ok token
      → contains o.methods "RS256" ≡ true
      → (k (reread header) w).0 ≡ ok (library.public_key key)
      → claim c claim_issuer ≡ text o.issuer
      → claim c claim_expiry ≡ int64 (pos s)
      → 0 < s
      → s ≤ 2 ^ 53
      → o.now <ℤ unix (pos s) +ℤ o.leeway
      → (o.audience ≡ none)
        ⊎ ((a : String) × (o.audience ≡ some a) × (claim c claim_audience ≡ text a))
      → claim c "nbf" ≡ null
      → jwt o token k w ≡ (accepted (reread c), (k (reread header) w).1)

module _ {W S K : Type 0} (library : IdpLibrary W S K) (f : FakeIdp W S) where
  -- The validator that the fake wires
  abbrev pub wired : Validator W K
  wired = record {
    issuer = f.issuer;
    audience = f.audience;
    keys = idp_keys library f;
    problems = f.problems;
    clock = f.system.clock;
    mapper = new_claim_mapper;
    leeway = default_clock_skew;
    algorithms = default_algorithms;
  }

  pub idp_validator-wired : (v : Validator W K) → idp_validator library f ≡ ok v → v ≡ wired
  unfolding idp_validator new_validator is_zero_mapper or_default_algorithms is_zero
  idp_validator-wired v h = elim (Bool-cases (f.issuer == "")) [
    | inl e ↦ absurd (ground arith)
    | inr e ↦ ground arith
  ]

  module _ (reread : Claims → Claims) (rereads : Rereads reread) (request : TokenRequest) where
    abbrev header : Assoc Value
    header = minted_header library.new_header f.key_id request

    header_set :
        request.key_id ≡ ""
        → request.omit_key_id ≡ false
        → header ≡ insert header_key_id (text f.key_id) library.new_header
    unfolding minted_header or_default
    header_set same kept = rw kept (rw same refl)

    header_key :
        request.key_id ≡ ""
        → request.omit_key_id ≡ false
        → claim (reread header) header_key_id ≡ text f.key_id
    header_key same kept = rereads.reread-text header header_key_id f.key_id (
        rw (header_set same kept)
          (claim-insert header_key_id header_key_id (text f.key_id) library.new_header))

    key_found :
        (w : W)
        → f.key_id ≢ ""
        → request.key_id ≡ ""
        → request.omit_key_id ≡ false
        → keyfunc wired (reread header) w ≡ (ok (library.public_key f.key), w)
    unfolding keyfunc idp_keys fake_key resolve_key
    key_found w named same kept =
        ground (arith, header_key same kept, eq_iff f.key_id f.key_id, eq_iff f.key_id "")

  module _ (jwt : JwtParser W K) (reread : Claims → Claims) (rereads : Rereads reread)
      (is_jwt : IsJwt library jwt reread) (slugify : String → String) (request : TokenRequest)
      (w : W) (v : Validator W K) (token audience : String) (now later : Instant) (s : ℕ)
      (wires : idp_validator library f ≡ ok v) (named : f.key_id ≢ "")
      (same_issuer : request.issuer ≡ "") (same_key : request.key_id ≡ "")
      (expires : request.omit_expiry ≡ false) (kept : request.omit_key_id ≡ false)
      (plain_claims : request.claims ≡ [])
      (apart : All (Apart slugify request.registered) reserved_claims)
      (words : All IsWord request.scopes)
      (minted : (mint_token library slugify f request audience w).0 ≡ ok token)
      (mint_clock : (f.system.clock.now_utc w).0 ≡ ok now)
      (seconds : unix_seconds (expiry_of request now) ≡ pos s) (positive : 0 < s)
      (small : s ≤ 2 ^ 53) where
    abbrev c : Claims
    c = full slugify f.issuer audience request now apart

    signed : library.sign f.key (minted_header library.new_header f.key_id request) c ≡ ok token
    unfolding mint_token minted_claims copy_claims
    signed = ground arith

    abbrev pub says : Principal
    says = map_claims new_claim_mapper (reread c)

    pub described : Describes slugify f.issuer audience s request says
    described =
        full-Describes reread rereads slugify f.issuer audience request now s apart expires seconds
          small words

    issued : claim c claim_issuer ≡ text f.issuer
    unfolding or_default
    issued =
        ground
          (arith, full-issuer slugify f.issuer audience request now apart, eq_iff request.issuer "")

    asked :
        (wanted : String)
        → (wanted ≡ "") ⊎ (wanted ≡ audience)
        → ((parser_options wired wanted later).audience ≡ none)
          ⊎ ((a : String) × ((parser_options wired wanted later).audience ≡ some a)
              × (claim c claim_audience ≡ text a))
    unfolding parser_options
    asked wanted for = elim (Bool-cases (wanted == "")) [
      | inl e ↦ inl (ground arith)
      | inr e ↦ inr (
        audience,
        ground (arith, eq_iff wanted ""),
        full-audience slugify f.issuer audience request now apart,
      )
    ]

    -- The validator accepts the token, for its audience or for none, and says what was asked for.
    pub accepts :
        (w' : W) (wanted : String)
        → (f.system.clock.now_utc w').0 ≡ ok later
        → later <ℤ unix (pos s) +ℤ default_clock_skew
        → (wanted ≡ "") ⊎ (wanted ≡ audience)
        → parse jwt v token wanted w' ≡ (ok says, (f.system.clock.now_utc w').1)
    unfolding parse validator_now run_parser conclude parser_options
    accepts w' wanted clock live for =
        let w1 = (f.system.clock.now_utc w').1 in
        let found = key_found reread rereads request w1 named same_key kept in
        let parsed : jwt (parser_options wired wanted later) token (keyfunc wired) w1
            ≡ (accepted (reread c), w1) =
          is_jwt.verifies f.key (minted_header library.new_header f.key_id request) c token
            (parser_options wired wanted later) (keyfunc wired) w1 s signed
            ((contains_iff default_algorithms "RS256").1 (inl refl)) (ap (λ x. x.0) found) issued
            (ground (arith, full-expiry slugify f.issuer audience request now apart)) positive small
            live (asked wanted for) (full-not_before slugify f.issuer audience request now apart)
          ∙ ap (λ x. (accepted (reread c), x.1)) found in
        rw (idp_validator-wired v wires) (
          ground (
            arith,
            parsed,
            eq_iff token "",
            is_jwt.signed-nonblank f.key (minted_header library.new_header f.key_id request) c token
                signed,
          ))
