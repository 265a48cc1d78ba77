-- ===== src/Validator/Trust.antt =====
-- What a validated token (lib/authengine/validator.go) is known to be, given what the JWT library
-- documents of its parser.
use diene_go_auth_engine.Prelude.{
  String, some, List, ◌≡◌, ◌≢◌, ◌⊎◌, arith, Any, inl, inr, Bool-cases, ◌==◌, refl, eq_iff,
  Option-cases,
}
use diene_go_auth_engine.Value.{Assoc, Value}
use diene_go_auth_engine.Claims.{
  Claims, claim_audience, claim_expiry, claim_issuer, claims_instant, claims_list, claims_text,
}
use diene_go_auth_engine.Effect.{Eff, Result-cases}
use diene_go_auth_engine.Time.{Instant}
use diene_go_auth_engine.Validator.{
  JwtParser, ParserOptions, Validator, ValidatorOptions, new_validator, accepted, conclude, keyfunc,
  parse, parser_options, run_parser, validator_now, ParseError, Parsed, rejected, validate,
  validate_id_token,
}
use diene_go_auth_engine.Principal.{Principal, map_claims}
use diene_go_auth_engine.Problems.{ok}
use diene_go_auth_engine.Prelude.Int.{◌+ℤ◌, ◌<ℤ◌}

-- The documented behaviour of the parser: claims that it accepts were minted by the issuer, where one
-- is asked for (a blank issuer switches the check off), carry an expiry that is not past by more than
-- the leeway, and, where one is asked for, the audience.
abbrev pub Documented : {W K : Type 0} → JwtParser W K → Type 0
Documented {W} {K} jwt =
    (o : ParserOptions) (t : String) (k : Assoc Value → Eff W K) (w : W) (claims : Claims)
    → (jwt o t k w).0 ≡ accepted claims
    → (o.issuer ≢ "" → claims_text claims claim_issuer ≡ some o.issuer)
      × ((e : Instant) × (claims_instant claims claim_expiry ≡ some e) × (o.now <ℤ e +ℤ o.leeway))
      × ((a : String)
          → o.audience ≡ some a
          → (as' : List String) × (claims_list claims claim_audience ≡ some as')
            × Any (λ x. x ≡ a) as')

-- NewValidator refuses a blank issuer.
new_validator-issuer :
    {W K : Type 0} (options : ValidatorOptions W K) (v : Validator W K)
    → new_validator options ≡ ok v
    → v.issuer ≢ ""
unfolding new_validator
new_validator-issuer options v h = elim (Option-cases options.problems) [
  | inl q ↦ absurd (ground arith)
  | inr (p, q) ↦ elim (Option-cases options.keys) [
    | inl q' ↦ absurd (ground arith)
    | inr (keys, q') ↦ elim (Option-cases options.clock) [
      | inl q'' ↦ absurd (ground arith)
      | inr (clock, q'') ↦ ground (arith, eq_iff options.issuer "")
    ]
  ]
]

Parsed-cases :
    (r : Parsed)
    → ((claims : Claims) × (r ≡ accepted claims)) ⊎ ((e : ParseError) × (r ≡ rejected e))
Parsed-cases (accepted claims) = inl (claims, refl)
Parsed-cases (rejected e) = inr (e, refl)

module _ {W K : Type 0} (jwt : JwtParser W K) (v : Validator W K) (documented : Documented jwt)
    (trusts : v.issuer ≢ "") where
  parse-accepted :
      (token audience : String) (w : W) (p : Principal)
      → (parse jwt v token audience w).0 ≡ ok p
      → (now : Instant) × (claims : Claims) × (token ≢ "")
        × ((v.clock.now_utc w).0 ≡ ok now)
        × ((jwt (parser_options v audience now) token (keyfunc v) (v.clock.now_utc w).1).0
            ≡ accepted claims)
        × (p ≡ map_claims v.mapper claims)
  unfolding parse validator_now run_parser conclude
  parse-accepted token audience w p h = elim (Result-cases (v.clock.now_utc w).0) [
    | inr (e, q) ↦ absurd (ground (arith, eq_iff token ""))
    | inl (now, q) ↦
        elim (Parsed-cases
          (jwt (parser_options v audience now) token (keyfunc v) (v.clock.now_utc w).1).0) [
            | inr (e, q') ↦ absurd (ground (arith, eq_iff token ""))
            | inl (claims, q') ↦ (
              now,
              claims,
              ground (arith, eq_iff token ""),
              q,
              q',
              ground (arith, eq_iff token ""),
            )
          ]
  ]

  -- Where the JWT parser does what it documents and the validator has an issuer, as NewValidator
  -- requires: a token that Validate accepts comes from the
  -- trusted issuer, carries an expiry that was not past by more than the leeway at the instant that
  -- the clock gave, and names the validator's audience, unless the validator has none.
  pub validated_is_trusted :
      (token : String) (w : W) (p : Principal)
      → (validate jwt v token w).0 ≡ ok p
      → (p.issuer ≡ v.issuer)
        × ((now : Instant) × ((v.clock.now_utc w).0 ≡ ok now) × (now <ℤ p.expires_at +ℤ v.leeway))
        × ((v.audience ≡ "") ⊎ Any (λ x. x ≡ v.audience) p.audience)
  unfolding validate
  validated_is_trusted token w p h =
      let (now, claims, blank, en, is, maps) = parse-accepted token v.audience w p h in
      let (issued, (expiry, expires, live), audience) =
        documented (parser_options v v.audience now) token (keyfunc v) (v.clock.now_utc w).1 claims
          is in
      (
        unfold map_claims parser_options in
            ground (arith, issued (unfold parser_options in trusts), maps),
        (now, en, unfold map_claims parser_options in ground (arith, expires, live, maps)),
        (elim (Bool-cases (v.audience == "")) [
          | inl unset ↦ inl ((eq_iff v.audience "").0 unset)
          | inr named ↦
              let (listed, e, any) = audience v.audience (unfold parser_options in ground arith) in
              inr (unfold map_claims in ground (arith, e, any, maps))
        ]),
      )

  -- Where the JWT parser does what it documents and the validator has an issuer, as NewValidator
  -- requires: a token that ValidateIDToken accepts comes from
  -- the trusted issuer and carries an expiry that was not past by more than the leeway at the
  -- instant that the clock gave.
  pub id_token_is_trusted :
      (token : String) (w : W) (p : Principal)
      → (validate_id_token jwt v token w).0 ≡ ok p
      → (p.issuer ≡ v.issuer)
        × ((now : Instant) × ((v.clock.now_utc w).0 ≡ ok now) × (now <ℤ p.expires_at +ℤ v.leeway))
  unfolding validate_id_token
  id_token_is_trusted token w p h =
      let (now, claims, blank, en, is, maps) = parse-accepted token "" w p h in
      let (issued, (expiry, expires, live), audience) =
        documented (parser_options v "" now) token (keyfunc v) (v.clock.now_utc w).1 claims is in
      (
        unfold map_claims parser_options in
            ground (arith, issued (unfold parser_options in trusts), maps),
        (now, en, unfold map_claims parser_options in ground (arith, expires, live, maps)),
      )
