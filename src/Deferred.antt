-- ===== src/Deferred.antt =====
-- lib/deferred/mint.go: deferred deep-link login nonces. The digest (hex of SHA-256) and the random
-- text are parameters.
pub mod Records
pub mod Refusals
pub mod Once
use diene_go_auth_engine.Prelude.{
  Bool, Option, String, [], arith, false, if◌then◌else◌, none, not, some, ◌==◌, ◌∷◌,
}
use diene_go_auth_engine.Effect.{Clock, Eff, lift, on_err, pure, refuse_if, ◌>>=◌, ◌>>◌}
use diene_go_auth_engine.Time.{Duration, Instant, add, before, is_zero}
use diene_go_auth_engine.Token.{OneTimeToken, Provider, Session, deferred_token_lifetime}
use diene_go_auth_engine.Problems.{
  Problems, Result, config_invalid, deferred_token_consumed, deferred_token_expired,
  deferred_token_unknown, err, ok, plain, provider_unavailable, raise, raise_from,
  token_claim_missing,
}
use diene_go_auth_engine.Claims.{claim_subject}
use diene_go_auth_engine.Value.{text}

pub record Record : Type 0 where
  pub digest : String
  pub subject : String
  pub email : Option String
  pub issued_at : Instant
  pub expires_at : Instant
  pub consumed : Bool

-- The Store seam; its Consume is atomic.
pub record Store (W : Type 0) : Type 0 where
  pub put : Record → Duration → Eff W (Unit {0})
  pub consume : String → Eff W (Option Record)

pub record Handoff : Type 0 where
  pub token : String
  pub expires_at : Instant

pub record MinterOptions (W : Type 0) : Type 0 where
  pub store : Option (Store W)
  pub provider : Option (Provider W)
  pub problems : Option Problems
  pub clock : Option (Clock W)
  pub lifetime : Duration

pub record Minter (W : Type 0) : Type 0 where
  pub store : Store W
  pub provider : Provider W
  pub problems : Problems
  pub clock : Clock W
  pub lifetime : Duration

module _ {W : Type 0} where
  -- NewMinter
  unfoldable pub new_minter : MinterOptions W → Result (Minter W)
  new_minter options = elim options.problems [
    | none ↦ err (plain "auth-engine deferred minter requires a problem factory")
    | some p ↦ elim options.store [
      | none ↦ err (
          raise p config_invalid
            "a deferred-login store is required so a nonce can be consumed exactly once" [])
      | some store ↦ elim options.provider [
        | none ↦ err (
            raise p config_invalid
              "an identity provider is required to mint the one-time login token" [])
        | some provider ↦ elim options.clock [
          | none ↦ err (
              raise p config_invalid "a clock seam is required so nonce expiry stays injectable" [])
          | some clock ↦ ok (record {
            store = store;
            provider = provider;
            problems = p;
            clock = clock;
            lifetime =
                if is_zero options.lifetime then deferred_token_lifetime else options.lifetime;
          })
        ]
      ]
    ]
  ]

  -- Minter.now
  unfoldable pub minter_now : Minter W → Eff W Instant
  minter_now m =
      on_err
        (λ e.
          raise_from m.problems provider_unavailable e
            "the clock seam could not supply the current instant" [])
        m.clock.now_utc

  -- The refusals of Minter.Exchange after the consume
  unfoldable pub redeem : Minter W → Instant → Option Record → Result Record
  redeem m now none =
      err (
        raise m.problems deferred_token_unknown "the handoff nonce is not known to this service" [])
  redeem m now (some rec) =
      if rec.consumed
      then err (
          raise m.problems deferred_token_consumed "the handoff nonce has already been redeemed"
            (("subject", text rec.subject) ∷ []))
      else if not (before now rec.expires_at)
      then err (
          raise m.problems deferred_token_expired "the handoff nonce expired before it was redeemed"
            (("subject", text rec.subject) ∷ []))
      else ok rec

module _ {W : Type 0} (digest : String → String) where
  -- The record that Minter.Mint stores
  unfoldable pub minted_record : Minter W → Session → Option String → String → Instant → Record
  minted_record m session email nonce now = record {
    digest = digest nonce;
    subject = session.subject;
    email = email;
    issued_at = now;
    expires_at = add now m.lifetime;
    consumed = false;
  }

  -- Minter.Mint; `nonce` is rand.Text, which cannot fail.
  unfoldable pub mint : (W → String × W) → Minter W → Session → Option String → Eff W Handoff
  mint nonce m session email = do
    refuse_if (session.subject == "") (
        raise m.problems token_claim_missing
          "a handoff nonce must be bound to an authenticated subject"
          (("claim", text claim_subject) ∷ []))
    now ← minter_now m
    drawn ← λ w. (ok (nonce w).0, (nonce w).1)
    let rec = minted_record m session email drawn now
    on_err
        (λ e.
          raise_from m.problems provider_unavailable e "the handoff nonce could not be stored" [])
        (m.store.put rec m.lifetime)
    pure (record { token = drawn; expires_at = rec.expires_at })

  -- Minter.Exchange up to the decision
  unfoldable pub take : Minter W → String → Eff W Record
  take m nonce = do
    refuse_if (nonce == "")
        (raise m.problems deferred_token_unknown "a blank handoff nonce is not a nonce" [])
    now ← minter_now m
    found ←
        on_err
          (λ e.
            raise_from m.problems provider_unavailable e "the handoff nonce could not be consumed"
              [])
          (m.store.consume (digest nonce))
    lift (redeem m now found)

  -- Minter.Exchange
  unfoldable pub exchange_nonce : Minter W → String → Eff W OneTimeToken
  exchange_nonce m nonce = do
    rec ← take m nonce
    m.provider.mint_one_time_token (record { subject = rec.subject; email = rec.email })
