-- ===== src/Deferred/Refusals.antt =====
-- What Minter.Exchange (lib/deferred/mint.go) decides on the record that it consumed.
use diene_go_auth_engine.Prelude.{
  Bool-cases, Option, String, [], arith, eq_iff, false, inl, inr, none, refl, some, true, ◌∷◌, ◌≡◌,
  ◌≢◌, ◌⊎◌,
}
use diene_go_auth_engine.Time.{Instant, before, before_iff, not-before_iff}
use diene_go_auth_engine.Deferred.{Minter, Record, exchange_nonce, minter_now, redeem, take}
use diene_go_auth_engine.Token.{OneTimeTokenRequest}
use diene_go_auth_engine.Effect.{continue}
use diene_go_auth_engine.Problems.{
  deferred_token_consumed, deferred_token_expired, deferred_token_unknown, err, ok, raise,
}
use diene_go_auth_engine.Value.{text}
use diene_go_auth_engine.Prelude.Int.{◌<ℤ◌, ◌≤ℤ◌}

module _ {W : Type 0} (digest : String → String) (m : Minter W) (nonce : String) where
  redeem-cases :
      (now : Instant) (o : Option Record)
      → ((o ≡ none)
          × (redeem m now o
              ≡ err (
                  raise m.problems deferred_token_unknown
                    "the handoff nonce is not known to this service" [])))
        ⊎ ((rec : Record) × (o ≡ some rec)
            × (rec.consumed ≡ true)
            × (redeem m now o
                ≡ err (
                    raise m.problems deferred_token_consumed
                      "the handoff nonce has already been redeemed"
                      (("subject", text rec.subject) ∷ []))))
        ⊎ ((rec : Record) × (o ≡ some rec)
            × (rec.consumed ≡ false)
            × (rec.expires_at ≤ℤ now)
            × (redeem m now o
                ≡ err (
                    raise m.problems deferred_token_expired
                      "the handoff nonce expired before it was redeemed"
                      (("subject", text rec.subject) ∷ []))))
        ⊎ ((rec : Record) × (o ≡ some rec)
            × (rec.consumed ≡ false)
            × (now <ℤ rec.expires_at)
            × (redeem m now o ≡ ok rec))
  unfolding redeem
  redeem-cases now none = inl (refl, refl)
  redeem-cases now (some rec) = inr (elim (Bool-cases rec.consumed) [
    | inl used ↦ inl (rec, refl, used, ground arith)
    | inr fresh ↦ inr (elim (Bool-cases (before now rec.expires_at)) [
      | inl live ↦ inr (rec, refl, fresh, (before_iff now rec.expires_at).0 live, ground arith)
      | inr old ↦ inl (rec, refl, fresh, (not-before_iff now rec.expires_at).0 old, ground arith)
    ])
  ])

  -- The world after Exchange has read the clock and consumed the nonce
  abbrev pub after_consume : W → W
  after_consume w = (m.store.consume (digest nonce) (m.clock.now_utc w).1).1

  -- The request that a record stands for
  abbrev pub request_of : Record → OneTimeTokenRequest
  request_of rec = record { subject = rec.subject; email = rec.email }

  pub exchange-eq-redeem :
      (w : W) (now : Instant) (o : Option Record)
      → nonce ≢ ""
      → (m.clock.now_utc w).0 ≡ ok now
      → (m.store.consume (digest nonce) (m.clock.now_utc w).1).0 ≡ ok o
      → exchange_nonce digest m nonce w
        ≡ continue
            (redeem m now o)
            (λ rec. m.provider.mint_one_time_token (request_of rec))
            (after_consume w)
  unfolding exchange_nonce take minter_now
  exchange-eq-redeem w now o blank en eo = ground (arith, eq_iff nonce "")

  -- For a nonce that is not blank, once the clock and the store have answered, Exchange does one of
  -- four things: it refuses an unknown nonce, one that was redeemed before, and an expired one that
  -- was not, each as its own problem and without the provider, and it asks the provider for a
  -- one-time token for the subject and the address of a record that is neither.
  pub exchange_decides :
      (w : W) (now : Instant) (o : Option Record)
      → nonce ≢ ""
      → (m.clock.now_utc w).0 ≡ ok now
      → (m.store.consume (digest nonce) (m.clock.now_utc w).1).0 ≡ ok o
      → ((o ≡ none)
          × (exchange_nonce digest m nonce w ≡ (
            err (
                raise m.problems deferred_token_unknown
                  "the handoff nonce is not known to this service" []),
            after_consume w,
          )))
        ⊎ ((rec : Record) × (o ≡ some rec)
            × (rec.consumed ≡ true)
            × (exchange_nonce digest m nonce w ≡ (
              err (
                  raise m.problems deferred_token_consumed
                    "the handoff nonce has already been redeemed"
                    (("subject", text rec.subject) ∷ [])),
              after_consume w,
            )))
        ⊎ ((rec : Record) × (o ≡ some rec)
            × (rec.consumed ≡ false)
            × (rec.expires_at ≤ℤ now)
            × (exchange_nonce digest m nonce w ≡ (
              err (
                  raise m.problems deferred_token_expired
                    "the handoff nonce expired before it was redeemed"
                    (("subject", text rec.subject) ∷ [])),
              after_consume w,
            )))
        ⊎ ((rec : Record) × (o ≡ some rec)
            × (rec.consumed ≡ false)
            × (now <ℤ rec.expires_at)
            × (exchange_nonce digest m nonce w
                ≡ m.provider.mint_one_time_token (request_of rec) (after_consume w)))
  exchange_decides w now o blank en eo =
      rw (exchange-eq-redeem w now o blank en eo) (elim (redeem-cases now o) [
        | inl (h, e) ↦ inl (h, rw e)
        | inr rest ↦ inr (elim rest [
          | inl (rec, h, used, e) ↦ inl (rec, h, used, rw e)
          | inr more ↦ inr (elim more [
            | inl (rec, h, fresh, old, e) ↦ inl (rec, h, fresh, old, rw e)
            | inr (rec, h, fresh, live, e) ↦ inr (rec, h, fresh, live, rw e)
          ])
        ])
      ])
