-- ===== src/Rotation/Kept.antt =====
-- What Rotate and Issue (lib/authengine/rotation.go) leave as it was in the store, whatever they answer.
use diene_go_auth_engine.Rotation.Records.{IsFiled, IsRefreshStore}
use diene_go_auth_engine.Prelude.{
  Bool-cases, Option, String, arith, true, inl, inr, ◌==◌, ◌≡◌, ◌≢◌, eq_iff, ap, sym, ◌∙◌,
}
use diene_go_auth_engine.Rotation.{
  RefreshRecord, Rotator, exchange, fingerprint_of, issue, issued_record, with_subject, rotator_now,
}
use diene_go_auth_engine.Effect.{Result-cases, Spares, Eff}
use diene_go_auth_engine.Token.{Session}
use diene_go_auth_engine.Problems.{ok}
use diene_go_auth_engine.Time.{Duration, sub, Instant}
use diene_go_auth_engine.Rotation.Rotate.{rotator_now-Spares}

pub token-with_subject :
    (session : Session) (rec : RefreshRecord)
    → (with_subject session rec).refresh_token ≡ session.refresh_token
unfolding with_subject
token-with_subject session rec = elim (Bool-cases (session.subject == "")) [
  | inl blank ↦ ground arith
  | inr named ↦ ground arith
]

module _ {W : Type 0} (digest : String → String) (r : Rotator W)
    {held : W → String → Option RefreshRecord} (store : IsRefreshStore r.store held)
    (clock_spares : Spares held r.clock.now_utc)
    (refresh_spares : (t : String) → Spares held (r.provider.refresh t)) where
  write-IsFiled :
      (rec : RefreshRecord) (d : Duration) (w : W)
      → IsFiled held w
      → IsFiled held (r.store.write rec d w).1
  write-IsFiled rec d w filed j rec' h = elim (Result-cases (r.store.write rec d w).0) [
    | inl (u, q) ↦
        ground (arith, store.held-write rec d w j, filed j rec', eq_iff rec.fingerprint j)
    | inr (e, q) ↦ filed j rec' (ground (arith, store.held-write_failed rec d w j e))
  ]

  pub spared-IsFiled :
      {A : Type 0} (m : Eff W A) (w : W) → Spares held m → IsFiled held w → IsFiled held (m w).1
  spared-IsFiled m w spares filed j rec h = filed j rec (ground (arith, spares w j))

  write-kept :
      (rec : RefreshRecord) (d : Duration) (w : W) (k : String)
      → rec.fingerprint ≢ k
      → held (r.store.write rec d w).1 k ≡ held w k
  write-kept rec d w k other = elim (Result-cases (r.store.write rec d w).0) [
    | inl (u, q) ↦ ground (arith, store.held-write rec d w k, eq_iff rec.fingerprint k)
    | inr (e, q) ↦ ground (arith, store.held-write_failed rec d w k e)
  ]

  pub issue-kept :
      (session : Session) (w : W) (k : String)
      → digest session.refresh_token ≢ k
      → held (issue digest r session w).1 k ≡ held w k
  unfolding issue fingerprint_of issued_record
  issue-kept session w k other = elim (Result-cases (rotator_now r w).0) [
    | inr (e, q) ↦ ground (arith, rotator_now-Spares digest r store clock_spares refresh_spares w k)
    | inl (now, q) ↦ elim (Bool-cases (session.refresh_token == "")) [
      | inl blank ↦
          ground (arith, rotator_now-Spares digest r store clock_spares refresh_spares w k)
      | inr named ↦
          let rec = issued_record digest r session (digest session.refresh_token) now in
          ground (
            arith,
            rotator_now-Spares digest r store clock_spares refresh_spares w k,
            write-kept rec (sub rec.expires_at now) (rotator_now r w).1 k,
          )
    ]
  ]

  pub issue-IsFiled :
      (session : Session) (w : W) → IsFiled held w → IsFiled held (issue digest r session w).1
  unfolding issue fingerprint_of issued_record
  issue-IsFiled session w filed =
      let w' = (rotator_now r w).1 in
      let kept =
        spared-IsFiled (rotator_now r) w
          (rotator_now-Spares digest r store clock_spares refresh_spares) filed in
      elim (Result-cases (rotator_now r w).0) [
        | inr (e, q) ↦ (let is : (issue digest r session w).1 ≡ w' = ground arith in rw is kept)
        | inl (now, q) ↦ elim (Bool-cases (session.refresh_token == "")) [
          | inl blank ↦ (let is : (issue digest r session w).1 ≡ w' = ground arith in rw is kept)
          | inr named ↦
              let rec = issued_record digest r session (digest session.refresh_token) now in
              let d = sub rec.expires_at now in
              let is : (issue digest r session w).1 ≡ (r.store.write rec d w').1 = ground arith in
              rw is (write-IsFiled rec d w' kept)
        ]
      ]

  -- The provider's exchange never answers a token of the digest.
  abbrev pub Fresh : String → Type 0
  Fresh k =
      (t : String) (w : W) (session : Session)
      → (r.provider.refresh t w).0 ≡ ok session
      → digest session.refresh_token ≢ k

  pub exchange-kept :
      (t : String) (now : Instant) (rec : RefreshRecord) (w : W) (k : String)
      → Fresh k
      → rec.fingerprint ≢ k
      → held (exchange digest r t (now, rec) w).1 k ≡ held w k
  unfolding exchange with_subject
  exchange-kept t now rec w k fresh other =
      let used = record rec { consumed = true } in
      let d = sub rec.expires_at now in
      let w1 = (r.provider.refresh t w).1 in
      let w2 = (r.store.write used d w1).1 in
      elim (Result-cases (r.provider.refresh t w).0) [
        | inr (e, q) ↦ ground (arith, refresh_spares t w k)
        | inl (rotated, q) ↦ elim (Result-cases (r.store.write used d w1).0) [
          | inr (e, q') ↦ ground (arith, refresh_spares t w k, write-kept used d w1 k)
          | inl (u, q') ↦
              let next = with_subject rotated rec in
              let avoids : digest next.refresh_token ≢ k =
                (λ e. fresh t w rotated q (ap digest (sym (token-with_subject rotated rec)) ∙ e)) in
              elim (Result-cases (issue digest r next w2).0) [
                | inr (e, q'') ↦ ground (
                  arith,
                  refresh_spares t w k,
                  write-kept used d w1 k,
                  issue-kept next w2 k avoids,
                )
                | inl (u', q'') ↦ ground (
                  arith,
                  refresh_spares t w k,
                  write-kept used d w1 k,
                  issue-kept next w2 k avoids,
                )
              ]
        ]
      ]

  pub exchange-IsFiled :
      (t : String) (now : Instant) (rec : RefreshRecord) (w : W)
      → IsFiled held w
      → IsFiled held (exchange digest r t (now, rec) w).1
  unfolding exchange
  exchange-IsFiled t now rec w filed =
      let used = record rec { consumed = true } in
      let d = sub rec.expires_at now in
      let w1 = (r.provider.refresh t w).1 in
      let w2 = (r.store.write used d w1).1 in
      let kept1 = spared-IsFiled (r.provider.refresh t) w (refresh_spares t) filed in
      let kept2 = write-IsFiled used d w1 kept1 in
      elim (Result-cases (r.provider.refresh t w).0) [
        | inr (e, q) ↦
            (let is : (exchange digest r t (now, rec) w).1 ≡ w1 = ground arith in rw is kept1)
        | inl (rotated, q) ↦ elim (Result-cases (r.store.write used d w1).0) [
          | inr (e, q') ↦
              (let is : (exchange digest r t (now, rec) w).1 ≡ w2 = ground arith in rw is kept2)
          | inl (u, q') ↦
              let next = with_subject rotated rec in
              let kept3 = issue-IsFiled next w2 kept2 in
              elim (Result-cases (issue digest r next w2).0) [
                | inr (e, q'') ↦
                    (let is : (exchange digest r t (now, rec) w).1 ≡ (issue digest r next w2).1 =
                        ground arith in
                      rw is kept3)
                | inl (u', q'') ↦
                    (let is : (exchange digest r t (now, rec) w).1 ≡ (issue digest r next w2).1 =
                        ground arith in
                      rw is kept3)
              ]
        ]
      ]
