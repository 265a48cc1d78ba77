-- ===== src/Rotation.antt =====
-- lib/authengine/rotation.go: refresh tokens that rotate on every use, with reuse refused. The
-- digest, hex of SHA-256 in the code, is a parameter.
pub mod Records
pub mod Refusals
pub mod Rotate
pub mod Reuse
pub mod Race
pub mod Unrotated
pub mod Kept
pub mod History
use diene_go_auth_engine.Prelude.{
  Bool, Option, String, [], arith, false, if◌then◌else◌, none, not, some, true, ◌==◌, ◌∷◌,
}
use diene_go_auth_engine.Effect.{Clock, Eff, lift, on_err, pure, ◌>>=◌, ◌>>◌}
use diene_go_auth_engine.Time.{Duration, Instant, add, before, is_zero, sub}
use diene_go_auth_engine.Problems.{
  Problems, Result, config_invalid, err, ok, plain, provider_unavailable, raise, raise_from,
  refresh_token_reused, refresh_token_unknown, token_expired,
}
use diene_go_auth_engine.Token.{Provider, Session, refresh_token_lifetime}
use diene_go_auth_engine.Value.{text}

pub record RefreshRecord : Type 0 where
  pub subject : String
  pub fingerprint : String
  pub issued_at : Instant
  pub expires_at : Instant
  pub consumed : Bool

-- The RefreshStore seam
pub record RefreshStore (W : Type 0) : Type 0 where
  pub read : String → Eff W (Option RefreshRecord)
  pub write : RefreshRecord → Duration → Eff W (Unit {0})

pub record RotatorOptions (W : Type 0) : Type 0 where
  pub provider : Option (Provider W)
  pub store : Option (RefreshStore W)
  pub problems : Option Problems
  pub clock : Option (Clock W)
  pub lifetime : Duration

pub record Rotator (W : Type 0) : Type 0 where
  pub provider : Provider W
  pub store : RefreshStore W
  pub problems : Problems
  pub clock : Clock W
  pub lifetime : Duration

-- The subject of the record, where the provider names none
unfoldable pub with_subject : Session → RefreshRecord → Session
with_subject rotated rec =
    if rotated.subject == "" then record rotated { subject = rec.subject } else rotated

module _ {W : Type 0} where
  -- NewRotator
  unfoldable pub new_rotator : RotatorOptions W → Result (Rotator W)
  new_rotator options = elim options.problems [
    | none ↦ err (plain "auth-engine refresh rotator requires a problem factory")
    | some p ↦ elim options.provider [
      | none ↦
          err
            (raise p config_invalid "an identity provider is required to rotate refresh tokens" [])
      | some provider ↦ elim options.store [
        | none ↦
            err (raise p config_invalid "a refresh store is required so reuse is detectable" [])
        | some store ↦ elim options.clock [
          | none ↦ err (
              raise p config_invalid "a clock seam is required so refresh expiry stays injectable"
                [])
          | some clock ↦ ok (record {
            provider = provider;
            store = store;
            problems = p;
            clock = clock;
            lifetime =
                if is_zero options.lifetime then refresh_token_lifetime else options.lifetime;
          })
        ]
      ]
    ]
  ]

  -- Rotator.now
  unfoldable pub rotator_now : Rotator W → Eff W Instant
  rotator_now r =
      on_err
        (λ e.
          raise_from r.problems provider_unavailable e
            "the clock seam could not supply the current instant" [])
        r.clock.now_utc

  -- The refusals of Rotator.Rotate after the read of the record
  unfoldable pub admit : Rotator W → Instant → Option RefreshRecord → Result RefreshRecord
  admit r now none = err (
      raise r.problems refresh_token_unknown "the presented refresh token was never issued here" [])
  admit r now (some rec) =
      if rec.consumed
      then err (
          raise r.problems refresh_token_reused
            "the presented refresh token has already been rotated away"
            (("subject", text rec.subject) ∷ []))
      else if not (before now rec.expires_at)
      then err (
          raise r.problems token_expired "the presented refresh token has expired"
            (("subject", text rec.subject) ∷ []))
      else ok rec

module _ {W : Type 0} (digest : String → String) where
  -- Rotator.Fingerprint
  unfoldable pub fingerprint_of : Rotator W → String → Result String
  fingerprint_of r refresh_token =
      if refresh_token == ""
      then err (raise r.problems refresh_token_unknown "a blank refresh token is not a token" [])
      else ok (digest refresh_token)

  -- The record that Rotator.Issue stores
  unfoldable pub issued_record : Rotator W → Session → String → Instant → RefreshRecord
  issued_record r session fingerprint now = record {
    subject = session.subject;
    fingerprint = fingerprint;
    issued_at = now;
    expires_at =
        if is_zero session.refresh_expires_at
        then add now r.lifetime
        else session.refresh_expires_at;
    consumed = false;
  }

  -- Rotator.Issue
  unfoldable pub issue : Rotator W → Session → Eff W (Unit {0})
  issue r session = do
    now ← rotator_now r
    fingerprint ← lift (fingerprint_of r session.refresh_token)
    let rec = issued_record r session fingerprint now
    on_err
        (λ e.
          raise_from r.problems provider_unavailable e "the refresh record could not be stored" [])
        (r.store.write rec (sub rec.expires_at now))

  -- Rotator.Rotate up to the exchange: the record that admits the token, and the instant
  unfoldable pub check : Rotator W → String → Eff W (Instant × RefreshRecord)
  check r refresh_token = do
    now ← rotator_now r
    fingerprint ← lift (fingerprint_of r refresh_token)
    found ←
        on_err
          (λ e.
            raise_from r.problems provider_unavailable e "the refresh record could not be read" [])
          (r.store.read fingerprint)
    rec ← lift (admit r now found)
    pure (now, rec)

  -- The rest of Rotator.Rotate: the exchange, the consumed record, and the new one
  unfoldable pub exchange : Rotator W → String → Instant × RefreshRecord → Eff W Session
  exchange r refresh_token (now, rec) = do
    rotated ← r.provider.refresh refresh_token
    on_err
        (λ e.
          raise_from r.problems provider_unavailable e
            "the rotated refresh token could not be marked consumed" [])
        (r.store.write (record rec { consumed = true }) (sub rec.expires_at now))
    issue r (with_subject rotated rec)
    pure (with_subject rotated rec)

  -- Rotator.Rotate
  unfoldable pub rotate : Rotator W → String → Eff W Session
  rotate r refresh_token = do admitted ← check r refresh_token; exchange r refresh_token admitted
