-- ===== src/Jwks/Keys.antt =====
-- The validator's key function (lib/authengine/validator.go) over the key set of
-- lib/logto/jwks.go.
use diene_go_auth_engine.Prelude.{
  String, none, some, ◌≡◌, ◌≢◌, ◌↔◌, arith, eq_iff, Option-cases, inl, inr,
}
use diene_go_auth_engine.Value.{
  Assoc, Value, flag, float64, int, int64, list, null, object, strings, text,
}
use diene_go_auth_engine.Jwks.{RemoteJwks, jwks_key, remote_keys}
use diene_go_auth_engine.Effect.{Result-cases}
use diene_go_auth_engine.Validator.{Validator, jwk_key_id_header, keyfunc, resolve_key}
use diene_go_auth_engine.Claims.{as_text, claim}
use diene_go_auth_engine.Problems.{ok}

as_text_iff : (v : Value) (s : String) → (as_text v ≡ some s) ↔ (v ≡ text s)
as_text_iff (text t) s = ground arith
as_text_iff null s = ground arith
as_text_iff (flag b) s = ground arith
as_text_iff (float64 n) s = ground arith
as_text_iff (int64 n) s = ground arith
as_text_iff (int n) s = ground arith
as_text_iff (strings ss) s = ground arith
as_text_iff (list vs) s = ground arith
as_text_iff (object fs) s = ground arith

module _ {W K : Type 0} (j : RemoteJwks W K) where
  jwks_key_iff :
      (key_id : String) (w : W) (k : K)
      → ((jwks_key j key_id w).0 ≡ ok k) ↔ ((j.storage.key_read key_id w).0 ≡ ok (some k))
  unfolding jwks_key
  jwks_key_iff key_id w k = elim (Result-cases (j.storage.key_read key_id w).0) [
    | inr (e, q) ↦ ground arith
    | inl (none, q) ↦ ground arith
    | inl (some k', q) ↦ ground arith
  ]

  -- A validator with the key set for its keys
  abbrev pub validator_over : Validator W K → Validator W K
  validator_over v = record v { keys = remote_keys j }

  resolve_key_iff :
      (v : Validator W K) (key_id : String) (w : W) (k : K)
      → ((resolve_key (validator_over v) key_id w).0 ≡ ok k)
        ↔ ((j.storage.key_read key_id w).0 ≡ ok (some k))
  unfolding resolve_key
  resolve_key_iff v key_id w k = elim (Result-cases (jwks_key j key_id w).0) [
    | inr (e, q) ↦ ground (arith, jwks_key_iff key_id w k)
    | inl (k', q) ↦ ground (arith, jwks_key_iff key_id w k)
  ]

  -- A validator over the published key set verifies with no key but the one that the set publishes
  -- under the token's own key id: its key function yields a key exactly if the header's key id is a
  -- text that is not blank, and the set's storage answers it with that key.
  pub keyfunc_never_guesses :
      (v : Validator W K) (header : Assoc Value) (w : W) (k : K)
      → ((keyfunc (validator_over v) header w).0 ≡ ok k) ↔ (
          (key_id : String) × (claim header jwk_key_id_header ≡ text key_id)
          × (key_id ≢ "")
          × ((j.storage.key_read key_id w).0 ≡ ok (some k)))
  unfolding keyfunc
  keyfunc_never_guesses v header w k =
      let kid = claim header jwk_key_id_header in
      elim (Option-cases (as_text kid)) [
        | inl n ↦ (
          (λ h. absurd (ground arith)),
          (λ (key_id, is, named, read). absurd (ground (arith, as_text_iff kid key_id))),
        )
        | inr (key_id, n) ↦ (
          (λ h. (
            key_id,
            (as_text_iff kid key_id).0 n,
            ground (arith, eq_iff key_id ""),
            ground (arith, resolve_key_iff v key_id w k),
          )),
          (λ (key_id', is, named, read).
              ground
                (arith, as_text_iff kid key_id', eq_iff key_id' "", resolve_key_iff v key_id' w k)),
        )
      ]
