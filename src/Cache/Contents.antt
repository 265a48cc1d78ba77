-- ===== src/Cache/Contents.antt =====
-- The contract of a TokenStore (lib/authengine/cache.go): what its operations do to what it holds.
use diene_go_auth_engine.Token.{AccessToken}
use diene_go_auth_engine.Time.{Duration}
use diene_go_auth_engine.Problems.{Error, err, ok}
use diene_go_auth_engine.Prelude.{Option, String, if◌then◌else◌, none, some, ◌==◌, ◌≡◌}
use diene_go_auth_engine.Cache.{TokenStore}

-- A store whose reads answer with what it holds and change nothing, whose writes and evictions
-- take effect when they succeed, and change nothing when they fail.
pub record IsStore {W : Type 0} (s : TokenStore W) (held : W → String → Option AccessToken)
    : Type 0 where
  pub get-held : (k : String) (w : W) (o : Option AccessToken) → (s.get k w).0 ≡ ok o → o ≡ held w k
  pub held-get : (k : String) (w : W) (j : String) → held (s.get k w).1 j ≡ held w j
  pub held-set :
      (k : String) (t : AccessToken) (d : Duration) (w : W) (j : String)
      → (s.set k t d w).0 ≡ ok tt
      → held (s.set k t d w).1 j ≡ (if k == j then some t else held w j)
  pub held-set_failed :
      (k : String) (t : AccessToken) (d : Duration) (w : W) (j : String) (e : Error)
      → (s.set k t d w).0 ≡ err e
      → held (s.set k t d w).1 j ≡ held w j
  pub held-delete :
      (k : String) (w : W) (j : String)
      → (s.delete k w).0 ≡ ok tt
      → held (s.delete k w).1 j ≡ (if k == j then none else held w j)
  pub held-delete_failed :
      (k : String) (w : W) (j : String) (e : Error)
      → (s.delete k w).0 ≡ err e
      → held (s.delete k w).1 j ≡ held w j
