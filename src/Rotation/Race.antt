-- ===== src/Rotation/Race.antt =====
-- Two concurrent calls of Rotator.Rotate (lib/authengine/rotation.go) with one token: the record is
-- read before the exchange and written after it, so the checks of both may come first.
use diene_go_auth_engine.Time.{Instant, before_iff}
use diene_go_auth_engine.Rotation.Records.{IsRefreshStore}
use diene_go_auth_engine.Prelude.{Option, String, arith, eq_iff, some, ◌≡◌}
use diene_go_auth_engine.Rotation.{
  RefreshRecord, Rotator, admit, check, exchange, fingerprint_of, rotate, rotator_now,
}
use diene_go_auth_engine.Effect.{Spares}
use diene_go_auth_engine.Rotation.Refusals.{after_read}
use diene_go_auth_engine.Rotation.Rotate.{check-Spares, check-held}
use diene_go_auth_engine.Problems.{ok}
use diene_go_auth_engine.Prelude.Int.{◌<ℤ◌}

module _ {W : Type 0} (digest : String → String) (r : Rotator W)
    {held : W → String → Option RefreshRecord} (store : IsRefreshStore r.store held)
    (clock_spares : Spares held r.clock.now_utc)
    (refresh_spares : (t : String) → Spares held (r.provider.refresh t)) where
  -- Over a store that keeps its contract, with a clock and a provider that leave the store alone,
  -- the checks of Rotate claim nothing: after one caller has passed them with a token, a second one
  -- that comes before the first one's exchange passes them too, with the same unconsumed record, as
  -- long as the clock and the store answer and the token has not expired by then. Each of the two
  -- calls then is its exchange with that record.
  pub race_admits_both :
      (t : String) (w : W) (now now' : Instant) (rec : RefreshRecord) (o : Option RefreshRecord)
      → (check digest r t w).0 ≡ ok (now, rec)
      → (r.clock.now_utc (check digest r t w).1).0 ≡ ok now'
      → (r.store.read (digest t) (r.clock.now_utc (check digest r t w).1).1).0 ≡ ok o
      → now' <ℤ rec.expires_at
      → (check digest r t (check digest r t w).1
          ≡ (ok (now', rec), after_read digest r t (check digest r t w).1))
        × (rotate digest r t w ≡ exchange digest r t (now, rec) (check digest r t w).1)
        × (rotate digest r t (check digest r t w).1
            ≡ exchange digest r t (now', rec) (after_read digest r t (check digest r t w).1))
  race_admits_both t w now now' rec o h en eo live =
      let w' = (check digest r t w).1 in
      let (was, fresh, nonblank) =
        check-held digest r store clock_spares refresh_spares t w now rec h in
      let is : o ≡ some rec = ground (
        arith,
        store.read-held (digest t) (r.clock.now_utc w').1 o,
        clock_spares w' (digest t),
        check-Spares digest r store clock_spares refresh_spares t w (digest t),
      ) in
      let second : check digest r t w' ≡ (ok (now', rec), after_read digest r t w') =
        unfold check rotator_now fingerprint_of admit in
        ground (arith, is, eq_iff t "", before_iff now' rec.expires_at) in
      (second, unfold rotate in ground (arith, h), unfold rotate in ground (arith, second))
