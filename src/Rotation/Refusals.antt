-- ===== src/Rotation/Refusals.antt =====
-- Whom Rotator.Rotate (lib/authengine/rotation.go) refuses before it calls the provider.
use diene_go_auth_engine.Prelude.{
  Bool-cases, Option, String, [], arith, eq_iff, false, inl, inr, none, refl, some, true, ◌∷◌, ◌≡◌,
  ◌≢◌, ◌⊎◌,
}
use diene_go_auth_engine.Time.{Instant, before, before_iff, not-before_iff}
use diene_go_auth_engine.Rotation.{
  RefreshRecord, Rotator, admit, check, exchange, fingerprint_of, rotate, rotator_now,
}
use diene_go_auth_engine.Effect.{continue}
use diene_go_auth_engine.Problems.{
  err, ok, raise, refresh_token_reused, refresh_token_unknown, token_expired,
}
use diene_go_auth_engine.Value.{text}
use diene_go_auth_engine.Prelude.Int.{◌<ℤ◌, ◌≤ℤ◌}

module _ {W : Type 0} (digest : String → String) (r : Rotator W) (refresh_token : String) where
  admit-cases :
      (now : Instant) (o : Option RefreshRecord)
      → ((o ≡ none)
          × (admit r now o
              ≡ err (
                  raise r.problems refresh_token_unknown
                    "the presented refresh token was never issued here" [])))
        ⊎ ((rec : RefreshRecord) × (o ≡ some rec)
            × (rec.consumed ≡ true)
            × (admit r now o
                ≡ err (
                    raise r.problems refresh_token_reused
                      "the presented refresh token has already been rotated away"
                      (("subject", text rec.subject) ∷ []))))
        ⊎ ((rec : RefreshRecord) × (o ≡ some rec)
            × (rec.consumed ≡ false)
            × (rec.expires_at ≤ℤ now)
            × (admit r now o
                ≡ err (
                    raise r.problems token_expired "the presented refresh token has expired"
                      (("subject", text rec.subject) ∷ []))))
        ⊎ ((rec : RefreshRecord) × (o ≡ some rec)
            × (rec.consumed ≡ false)
            × (now <ℤ rec.expires_at)
            × (admit r now o ≡ ok rec))
  unfolding admit
  admit-cases now none = inl (refl, refl)
  admit-cases now (some rec) = inr (elim (Bool-cases rec.consumed) [
    | inl used ↦ inl (rec, refl, used, ground arith)
    | inr fresh ↦ inr (elim (Bool-cases (before now rec.expires_at)) [
      | inl live ↦ inr (rec, refl, fresh, (before_iff now rec.expires_at).0 live, ground arith)
      | inr spent ↦
          inl (rec, refl, fresh, (not-before_iff now rec.expires_at).0 spent, ground arith)
    ])
  ])

  pub rotate-eq-admit :
      (w : W) (now : Instant) (o : Option RefreshRecord)
      → refresh_token ≢ ""
      → (r.clock.now_utc w).0 ≡ ok now
      → (r.store.read (digest refresh_token) (r.clock.now_utc w).1).0 ≡ ok o
      → rotate digest r refresh_token w
        ≡ continue
            (admit r now o)
            (λ rec. exchange digest r refresh_token (now, rec))
            (r.store.read (digest refresh_token) (r.clock.now_utc w).1).1
  unfolding rotate check rotator_now fingerprint_of
  rotate-eq-admit w now o blank en eo = ground (arith, eq_iff refresh_token "")

  -- The world after Rotate has read the clock and the record, and has done nothing else
  abbrev pub after_read : W → W
  after_read w = (r.store.read (digest refresh_token) (r.clock.now_utc w).1).1

  -- For a token that is not blank, once the clock and the store have answered, Rotate does one of
  -- four things: it refuses a token that was never issued, a consumed one, and an expired one that
  -- is not consumed, each as its own problem and with nothing done, and it goes on to the exchange
  -- with a record that is neither consumed nor expired.
  pub rotate_decides :
      (w : W) (now : Instant) (o : Option RefreshRecord)
      → refresh_token ≢ ""
      → (r.clock.now_utc w).0 ≡ ok now
      → (r.store.read (digest refresh_token) (r.clock.now_utc w).1).0 ≡ ok o
      → ((o ≡ none)
          × (rotate digest r refresh_token w ≡ (
            err (
                raise r.problems refresh_token_unknown
                  "the presented refresh token was never issued here" []),
            after_read w,
          )))
        ⊎ ((rec : RefreshRecord) × (o ≡ some rec)
            × (rec.consumed ≡ true)
            × (rotate digest r refresh_token w ≡ (
              err (
                  raise r.problems refresh_token_reused
                    "the presented refresh token has already been rotated away"
                    (("subject", text rec.subject) ∷ [])),
              after_read w,
            )))
        ⊎ ((rec : RefreshRecord) × (o ≡ some rec)
            × (rec.consumed ≡ false)
            × (rec.expires_at ≤ℤ now)
            × (rotate digest r refresh_token w ≡ (
              err (
                  raise r.problems token_expired "the presented refresh token has expired"
                    (("subject", text rec.subject) ∷ [])),
              after_read w,
            )))
        ⊎ ((rec : RefreshRecord) × (o ≡ some rec)
            × (rec.consumed ≡ false)
            × (now <ℤ rec.expires_at)
            × (rotate digest r refresh_token w
                ≡ exchange digest r refresh_token (now, rec) (after_read w)))
  rotate_decides w now o blank en eo =
      rw (rotate-eq-admit w now o blank en eo) (elim (admit-cases now o) [
        | inl (h, e) ↦ inl (h, rw e)
        | inr rest ↦ inr (elim rest [
          | inl (rec, h, used, e) ↦ inl (rec, h, used, rw e)
          | inr more ↦ inr (elim more [
            | inl (rec, h, fresh, spent, e) ↦ inl (rec, h, fresh, spent, rw e)
            | inr (rec, h, fresh, live, e) ↦ inr (rec, h, fresh, live, rw e)
          ])
        ])
      ])

  pub admit-consumed :
      (now : Instant) (o : Option RefreshRecord) (rec : RefreshRecord)
      → o ≡ some (record rec { consumed = true })
      → admit r now o
        ≡ err (
            raise r.problems refresh_token_reused
              "the presented refresh token has already been rotated away"
              (("subject", text rec.subject) ∷ []))
  unfolding admit
  admit-consumed now o rec h = ground arith
