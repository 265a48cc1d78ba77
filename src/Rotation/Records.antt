-- ===== src/Rotation/Records.antt =====
-- The contract of a RefreshStore (lib/authengine/rotation.go): a table of records by fingerprint.
use diene_go_auth_engine.Time.{Duration}
use diene_go_auth_engine.Problems.{Error, err, ok}
use diene_go_auth_engine.Prelude.{Option, String, if◌then◌else◌, some, ◌==◌, ◌≡◌}
use diene_go_auth_engine.Rotation.{RefreshRecord, RefreshStore}

pub record IsRefreshStore {W : Type 0} (s : RefreshStore W)
    (held : W → String → Option RefreshRecord) : Type 0 where
  pub read-held :
      (k : String) (w : W) (o : Option RefreshRecord) → (s.read k w).0 ≡ ok o → o ≡ held w k
  pub held-read : (k : String) (w : W) (j : String) → held (s.read k w).1 j ≡ held w j
  pub held-write :
      (rec : RefreshRecord) (d : Duration) (w : W) (j : String)
      → (s.write rec d w).0 ≡ ok tt
      → held (s.write rec d w).1 j ≡ (if rec.fingerprint == j then some rec else held w j)
  pub held-write_failed :
      (rec : RefreshRecord) (d : Duration) (w : W) (j : String) (e : Error)
      → (s.write rec d w).0 ≡ err e
      → held (s.write rec d w).1 j ≡ held w j

-- Every record lies under its own fingerprint.
abbrev pub IsFiled : {W : Type 0} → (W → String → Option RefreshRecord) → W → Type 0
IsFiled held w = (j : String) (rec : RefreshRecord) → held w j ≡ some rec → rec.fingerprint ≡ j
