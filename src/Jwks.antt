-- ===== src/Jwks.antt =====
-- lib/logto/jwks.go: verification keys from the provider's published key set. The storage of the
-- jwkset library, with its fetches and its cache, is a parameter.
pub mod Keys
use diene_go_auth_engine.Prelude.{String, Option, none, some, [], ◌∷◌, ◌==◌, if◌then◌else◌, arith}
use diene_go_auth_engine.Effect.{Eff, fail, on_err, pure, ◌>>=◌, ◌>>◌}
use diene_go_auth_engine.Problems.{
  Problems, Result, config_invalid, err, ok, plain, provider_unavailable, raise, raise_from,
  signing_key_unknown,
}
use diene_go_auth_engine.Validator.{VerificationKeys}
use diene_go_auth_engine.Value.{text}

-- jwkset.Storage: KeyRead, and the key of what it reads, none where that carries none
pub record JwksStorage (W K : Type 0) : Type 0 where
  pub key_read : String → Eff W (Option K)

pub record RemoteJwks (W K : Type 0) : Type 0 where
  pub storage : JwksStorage W K
  pub problems : Problems

module _ {W K : Type 0} where
  -- NewRemoteJWKS, over jwkset.NewDefaultHTTPClientCtx, which fetches
  unfoldable pub new_remote_jwks :
      (String → Eff W (JwksStorage W K)) → String → Option Problems → Eff W (RemoteJwks W K)
  new_remote_jwks default_client uri none =
      fail (plain "auth-engine logto JWKS requires a problem factory")
  new_remote_jwks default_client uri (some p) =
      if uri == ""
      then fail (raise p config_invalid "a JWKS URI is required to verify token signatures" [])
      else (do
        storage ←
            on_err
              (λ e.
                raise_from p provider_unavailable e "the identity provider JWKS could not be read"
                  (("jwksUri", text uri) ∷ []))
              (default_client uri)
        pure (record { storage = storage; problems = p }))

  -- NewJWKS
  unfoldable pub new_jwks : Option (JwksStorage W K) → Option Problems → Result (RemoteJwks W K)
  new_jwks storage none = err (plain "auth-engine logto JWKS requires a problem factory")
  new_jwks none (some p) =
      err (raise p config_invalid "a JWKS storage is required to verify token signatures" [])
  new_jwks (some storage) (some p) = ok (record { storage = storage; problems = p })

  -- RemoteJWKS.Key
  unfoldable pub jwks_key : RemoteJwks W K → String → Eff W K
  jwks_key j key_id = do
    published ←
        on_err
          (λ e.
            raise_from j.problems signing_key_unknown e
              "the identity provider publishes no key for this key id"
              (("keyId", text key_id) ∷ []))
          (j.storage.key_read key_id)
    elim published [
      | none ↦ fail (
          raise j.problems signing_key_unknown "the published key carries no usable key material"
            (("keyId", text key_id) ∷ []))
      | some key ↦ pure key
    ]

  -- RemoteJWKS as the engine's VerificationKeys
  abbrev pub remote_keys : RemoteJwks W K → VerificationKeys W K
  remote_keys j = record { key = jwks_key j }
