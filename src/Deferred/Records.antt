-- ===== src/Deferred/Records.antt =====
-- The contract of a deferred.Store (lib/deferred/mint.go), whose Consume is atomic.
use diene_go_auth_engine.Time.{Duration}
use diene_go_auth_engine.Problems.{Error, err, ok}
use diene_go_auth_engine.Prelude.{Option, String, if◌then◌else◌, none, some, true, ◌==◌, ◌≡◌}
use diene_go_auth_engine.Deferred.{Record, Store}

-- The record as Consume leaves it
abbrev pub spent : Option Record → Option Record
spent none = none
spent (some rec) = some (record rec { consumed = true })

pub record IsDeferredStore {W : Type 0} (s : Store W) (held : W → String → Option Record)
    : Type 0 where
  pub consume-held :
      (k : String) (w : W) (o : Option Record) → (s.consume k w).0 ≡ ok o → o ≡ held w k
  pub held-consume :
      (k : String) (w : W) (o : Option Record) (j : String)
      → (s.consume k w).0 ≡ ok o
      → held (s.consume k w).1 j ≡ (if k == j then spent (held w k) else held w j)
  pub held-consume_failed :
      (k : String) (w : W) (e : Error) (j : String)
      → (s.consume k w).0 ≡ err e
      → held (s.consume k w).1 j ≡ held w j
  pub held-put :
      (rec : Record) (d : Duration) (w : W) (j : String)
      → (s.put rec d w).0 ≡ ok tt
      → held (s.put rec d w).1 j ≡ (if rec.digest == j then some rec else held w j)
  pub held-put_failed :
      (rec : Record) (d : Duration) (w : W) (e : Error) (j : String)
      → (s.put rec d w).0 ≡ err e
      → held (s.put rec d w).1 j ≡ held w j
