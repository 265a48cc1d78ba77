-- ===== src/Rotation/Unrotated.antt =====
-- Rotation (lib/authengine/rotation.go) with a provider that answers the token that was presented.
use diene_go_auth_engine.Rotation.Records.{IsFiled, IsRefreshStore}
use diene_go_auth_engine.Prelude.{
  Option, String, arith, false, inl, inr, some, ◌≡◌, ◌⊎◌, [], ◌∷◌, eq_refl,
}
use diene_go_auth_engine.Rotation.{RefreshRecord, Rotator, exchange, rotate}
use diene_go_auth_engine.Rotation.Reuse.{rotate_records}
use diene_go_auth_engine.Rotation.Refusals.{after_read, rotate_decides}
use diene_go_auth_engine.Effect.{Spares}
use diene_go_auth_engine.Token.{Session}
use diene_go_auth_engine.Problems.{ok, err, raise, token_expired}
use diene_go_auth_engine.Time.{Instant}
use diene_go_auth_engine.Prelude.Int.{◌<ℤ◌, ◌≤ℤ◌}
use diene_go_auth_engine.Value.{text}
use diene_go_auth_engine.Deferred.Records.{spent}

-- Over a store that keeps its contract and files every record under its own fingerprint, with a clock
-- and a provider that leave the store alone: after a successful rotation that answered the presented
-- token itself, its record is not consumed, and presenting it again, once the clock and the store
-- answer, is never refused as reused: it is exchanged again, or refused as expired.
pub unrotated_is_readmitted :
    {W : Type 0} (digest : String → String) (r : Rotator W)
    {held : W → String → Option RefreshRecord} (store : IsRefreshStore r.store held)
    (clock_spares : Spares held r.clock.now_utc)
    (refresh_spares : (t : String) → Spares held (r.provider.refresh t)) (t : String) (w : W)
    (session : Session) (filed : IsFiled held w) (rotated : (rotate digest r t w).0 ≡ ok session)
    (now : Instant) (o : Option RefreshRecord)
    → session.refresh_token ≡ t
    → (r.clock.now_utc (rotate digest r t w).1).0 ≡ ok now
    → (r.store.read (digest t) (r.clock.now_utc (rotate digest r t w).1).1).0 ≡ ok o
    → (new : RefreshRecord) × (held (rotate digest r t w).1 (digest t) ≡ some new)
      × (new.consumed ≡ false)
      × ((new.expires_at ≤ℤ now)
            × (rotate digest r t (rotate digest r t w).1 ≡ (
              err (
                  raise r.problems token_expired "the presented refresh token has expired"
                    (("subject", text new.subject) ∷ [])),
              after_read digest r t (rotate digest r t w).1,
            ))
          ⊎ (now <ℤ new.expires_at)
            × (rotate digest r t (rotate digest r t w).1
                ≡ exchange digest r t (now, new) (after_read digest r t (rotate digest r t w).1)))
unrotated_is_readmitted digest r {held} store clock_spares refresh_spares t w session filed rotated
      now o same en eo =
    let (rec, new, nonblank, was, fresh, unused, owner, kept) =
      rotate_records digest r store clock_spares refresh_spares t w session filed rotated in
    let w' = (rotate digest r t w).1 in
    let here : held w' (digest t) ≡ some new =
      ground (arith, kept (digest t), same, eq_refl (digest t)) in
    let is : o ≡ some new =
      ground
        (arith, clock_spares w' (digest t), store.read-held (digest t) (r.clock.now_utc w').1 o) in
    (
      new,
      here,
      unused,
      (elim (rotate_decides digest r t w' now o nonblank en eo) [
        | inl (h, e) ↦ absurd (ground arith)
        | inr rest ↦ elim rest [
          | inl (rec', h, used, e) ↦ absurd (ground arith)
          | inr more ↦ elim more [
            | inl (rec', h, free, spent, e) ↦ inl (ground arith, ground arith)
            | inr (rec', h, free, live, e) ↦ inr (ground arith, ground arith)
          ]
        ]
      ]),
    )
