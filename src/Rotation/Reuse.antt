-- ===== src/Rotation/Reuse.antt =====
-- Rotation and reuse (lib/authengine/rotation.go): what a rotation leaves on record, and what a
-- second presentation of the same token gets.
use diene_go_auth_engine.Rotation.Records.{IsFiled, IsRefreshStore}
use diene_go_auth_engine.Prelude.{
  Option, String, arith, false, if◌then◌else◌, inl, inr, some, true, ◌==◌, ◌≡◌, [], ◌∷◌, ◌≢◌,
  eq_iff, eq_refl,
}
use diene_go_auth_engine.Rotation.{RefreshRecord, Rotator, check, rotate, exchange}
use diene_go_auth_engine.Effect.{Result-cases, Spares}
use diene_go_auth_engine.Token.{Session}
use diene_go_auth_engine.Rotation.Rotate.{check-held, check-Spares, exchange_records}
use diene_go_auth_engine.Problems.{ok, err, raise, refresh_token_reused}
use diene_go_auth_engine.Time.{Instant}
use diene_go_auth_engine.Rotation.Refusals.{after_read, admit-consumed, rotate-eq-admit}
use diene_go_auth_engine.Value.{text}

module _ {W : Type 0} (digest : String → String) (r : Rotator W)
    {held : W → String → Option RefreshRecord} (store : IsRefreshStore r.store held)
    (clock_spares : Spares held r.clock.now_utc)
    (refresh_spares : (t : String) → Spares held (r.provider.refresh t)) (t : String) (w : W)
    (session : Session) (filed : IsFiled held w)
    (rotated : (rotate digest r t w).0 ≡ ok session) where
  -- Over a store that keeps its contract and files every record under its own fingerprint, with a
  -- clock and a provider that leave the store alone: after a successful rotation the presented
  -- token was not blank and had a record that was not consumed; the new token has a record that is
  -- not consumed and names the session's subject; the presented token's record is consumed, unless
  -- the new token has the same digest; and no other record has changed.
  pub rotate_records :
      (rec new : RefreshRecord) × (t ≢ "")
      × (held w (digest t) ≡ some rec)
      × (rec.consumed ≡ false)
      × (new.consumed ≡ false)
      × (new.subject ≡ session.subject)
      × ((j : String)
          → held (rotate digest r t w).1 j ≡ (
              if digest session.refresh_token == j
              then some new
              else if digest t == j
              then some (record rec { consumed = true })
              else held w j))
  unfolding rotate
  rotate_records = elim (Result-cases (check digest r t w).0) [
    | inr (e, ec) ↦ absurd (ground arith)
    | inl ((now, rec), ec) ↦
        let w' = (check digest r t w).1 in
        let (was, fresh, nonblank) =
          check-held digest r store clock_spares refresh_spares t w now rec ec in
        let done : (exchange digest r t (now, rec) w').0 ≡ ok session = ground arith in
        let (new, unused, owner, kept) =
          exchange_records digest r store clock_spares refresh_spares t now rec w' session
            (filed (digest t) rec was) done in
        (
          rec,
          new,
          nonblank,
          was,
          fresh,
          unused,
          owner,
          λ j.
              ground (arith, kept j, check-Spares digest r store clock_spares refresh_spares t w j),
        )
  ]

  -- Over a store that keeps its contract and files every record under its own fingerprint, with a
  -- clock and a provider that leave the store alone: a rotated token is spent. After a successful
  -- rotation to a token of another digest, presenting the old one again, once the clock and the
  -- store answer, is refused as reused, for the subject of its record, with the provider not called
  -- and nothing written.
  pub reuse_is_refused :
      (now : Instant) (o : Option RefreshRecord)
      → digest session.refresh_token ≢ digest t
      → (r.clock.now_utc (rotate digest r t w).1).0 ≡ ok now
      → (r.store.read (digest t) (r.clock.now_utc (rotate digest r t w).1).1).0 ≡ ok o
      → (rec : RefreshRecord) × (held w (digest t) ≡ some rec)
        × (rotate digest r t (rotate digest r t w).1 ≡ (
          err (
              raise r.problems refresh_token_reused
                "the presented refresh token has already been rotated away"
                (("subject", text rec.subject) ∷ [])),
          after_read digest r t (rotate digest r t w).1,
        ))
  reuse_is_refused now o other en eo =
      let (rec, new, nonblank, was, fresh, unused, owner, kept) = rotate_records in
      let w' = (rotate digest r t w).1 in
      let is : o ≡ some (record rec { consumed = true }) = ground (
        arith,
        kept (digest t),
        eq_iff (digest session.refresh_token) (digest t),
        eq_refl (digest t),
        clock_spares w' (digest t),
        store.read-held (digest t) (r.clock.now_utc w').1 o,
      ) in
      (
        rec,
        was,
        rw (rotate-eq-admit digest r t w' now o nonblank en eo)
            (rw (admit-consumed digest r t now o rec is)),
      )
