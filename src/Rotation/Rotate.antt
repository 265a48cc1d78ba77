-- ===== src/Rotation/Rotate.antt =====
-- What Rotator.Issue and Rotator.Rotate (lib/authengine/rotation.go) leave in the store, and what
-- becomes of a token that is presented again.
use diene_go_auth_engine.Rotation.Records.{IsRefreshStore}
use diene_go_auth_engine.Prelude.{
  Option, String, arith, false, if◌then◌else◌, inl, inr, some, ◌==◌, ◌≡◌, true, eq_iff, ◌≢◌,
}
use diene_go_auth_engine.Rotation.{
  RefreshRecord, Rotator, fingerprint_of, issue, issued_record, rotator_now, exchange, with_subject,
  admit, check,
}
use diene_go_auth_engine.Effect.{Result-cases, Spares}
use diene_go_auth_engine.Token.{Session}
use diene_go_auth_engine.Problems.{ok}
use diene_go_auth_engine.Time.{sub, Instant}

module _ {W : Type 0} (digest : String → String) (r : Rotator W)
    {held : W → String → Option RefreshRecord} (store : IsRefreshStore r.store held)
    (clock_spares : Spares held r.clock.now_utc)
    (refresh_spares : (t : String) → Spares held (r.provider.refresh t)) where
  pub rotator_now-Spares : Spares held (rotator_now r)
  unfolding rotator_now
  rotator_now-Spares w j = ground (arith, clock_spares w j)

  -- After Issue succeeds the session's token is on record, not consumed and for the session's
  -- subject, and no other record has changed.
  issue_records :
      (session : Session) (w : W)
      → (issue digest r session w).0 ≡ ok tt
      → (rec : RefreshRecord) × (rec.consumed ≡ false)
        × (rec.subject ≡ session.subject)
        × (rec.fingerprint ≡ digest session.refresh_token)
        × ((j : String)
            → held (issue digest r session w).1 j
              ≡ (if digest session.refresh_token == j then some rec else held w j))
  unfolding issue fingerprint_of issued_record
  issue_records session w h = elim (Result-cases (rotator_now r w).0) [
    | inr (e, en) ↦ ground arith
    | inl (now, en) ↦ (
      issued_record digest r session (digest session.refresh_token) now,
      ground arith,
      ground arith,
      ground arith,
      λ j. ground (
        arith,
        rotator_now-Spares w j,
        store.held-write (issued_record digest r session (digest session.refresh_token) now)
            (sub (issued_record digest r session (digest session.refresh_token) now).expires_at now)
            (rotator_now r w).1 j,
      ),
    )
  ]

  -- The records after a successful exchange: the new token is on record and not consumed, and so is
  -- every other as before, but for the presented token, which is consumed.
  pub exchange_records :
      (token' : String) (now : Instant) (rec : RefreshRecord) (w : W) (session : Session)
      → rec.fingerprint ≡ digest token'
      → (exchange digest r token' (now, rec) w).0 ≡ ok session
      → (new : RefreshRecord) × (new.consumed ≡ false)
        × (new.subject ≡ session.subject)
        × ((j : String)
            → held (exchange digest r token' (now, rec) w).1 j ≡ (
                if digest session.refresh_token == j
                then some new
                else if digest token' == j
                then some (record rec { consumed = true })
                else held w j))
  unfolding exchange
  exchange_records token' now rec w session f h =
      elim (Result-cases (r.provider.refresh token' w).0) [
        | inr (e, er) ↦ ground arith
        | inl (rotated, er) ↦
            let w' = (r.provider.refresh token' w).1 in
            let used = record rec { consumed = true } in
            let d = sub rec.expires_at now in
            let next = with_subject rotated rec in
            elim (Result-cases (r.store.write used d w').0) [
              | inr (e, ew) ↦ ground arith
              | inl (u, ew) ↦
                  let w'' = (r.store.write used d w').1 in
                  elim (Result-cases (issue digest r next w'').0) [
                    | inr (e, ei) ↦ ground arith
                    | inl (u', ei) ↦
                        let (new, fresh, owner, fp, kept) = issue_records next w'' ei in
                        (
                          new,
                          fresh,
                          ground (arith, owner),
                          λ j. ground (
                            arith,
                            kept j,
                            store.held-write used d w' j,
                            refresh_spares token' w j,
                          ),
                        )
                  ]
            ]
      ]

  pub check-Spares : (t : String) → Spares held (check digest r t)
  unfolding check rotator_now fingerprint_of
  check-Spares t w j =
      ground (arith, clock_spares w j, store.held-read (digest t) (r.clock.now_utc w).1 j)

  admit-ok :
      (now : Instant) (o : Option RefreshRecord) (rec : RefreshRecord)
      → admit r now o ≡ ok rec
      → (o ≡ some rec) × (rec.consumed ≡ false)
  unfolding admit
  admit-ok now o rec h = ground arith

  -- Whom the checks of Rotate admit: a token that is not blank, with its record not consumed.
  pub check-held :
      (t : String) (w : W) (now : Instant) (rec : RefreshRecord)
      → (check digest r t w).0 ≡ ok (now, rec)
      → (held w (digest t) ≡ some rec) × (rec.consumed ≡ false) × (t ≢ "")
  unfolding check rotator_now fingerprint_of
  check-held t w now rec h = elim (Result-cases (r.clock.now_utc w).0) [
    | inr (e, en) ↦ ground arith
    | inl (now', en) ↦ elim (Result-cases (r.store.read (digest t) (r.clock.now_utc w).1).0) [
      | inr (e, eo) ↦ ground arith
      | inl (o, eo) ↦ ground (
        arith,
        store.read-held (digest t) (r.clock.now_utc w).1 o,
        clock_spares w (digest t),
        admit-ok now' o rec,
        eq_iff t "",
      )
    ]
  ]
