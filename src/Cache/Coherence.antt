-- ===== src/Cache/Coherence.antt =====
-- What the cache of lib/authengine/cache.go does to its store and what it hands out.
use diene_go_auth_engine.Token.{AccessToken, Resource, expired}
use diene_go_auth_engine.Problems.{Error, Result, err, ok}
use diene_go_auth_engine.Cache.Contents.{IsStore}
use diene_go_auth_engine.Prelude.{
  Option, String, arith, if◌then◌else◌, some, ◌==◌, ◌≡◌, eq_iff, none, inl, inr, false, eq_refl,
}
use diene_go_auth_engine.Cache.{
  TokenCache, mint_call, cache_key, cache_now, read_cached, token, hit_or_mint,
}
use diene_go_auth_engine.Time.{Instant}
use diene_go_auth_engine.Effect.{Result-cases, Spares}
use diene_go_auth_engine.Resource.{require_resource}

module _ {W : Type 0} (namespaced_key : String → String → Result String) (c : TokenCache W)
    {held : W → String → Option AccessToken} (store : IsStore c.store held)
    (clock_spares : Spares held c.clock.now_utc)
    (mint_spares : (r : Resource) → Spares held (c.source.mint r)) where
  pub mint_call-ok :
      (key : String) (r : Resource) (w : W) (t : AccessToken) (j : String)
      → (mint_call c key r w).0 ≡ ok t
      → (t.resource ≡ r.name)
        × (held (mint_call c key r w).1 j ≡ (if key == j then some t else held w j))
  unfolding mint_call
  mint_call-ok key r w t j h = grind (arith, store.held-set, clock_spares, mint_spares)

  mint_call-err :
      (key : String) (r : Resource) (w : W) (e : Error) (j : String)
      → (mint_call c key r w).0 ≡ err e
      → held (mint_call c key r w).1 j ≡ held w j
  unfolding mint_call
  mint_call-err key r w e j h = grind (arith, store.held-set_failed, clock_spares, mint_spares)

  pub cache_now-Spares : Spares held (cache_now c)
  unfolding cache_now
  cache_now-Spares w j = ground (arith, clock_spares w j)

  pub read_cached-Spares : (key name : String) → Spares held (read_cached c key name)
  unfolding read_cached
  read_cached-Spares key name w j = ground (arith, store.held-get key w j)

  pub read_cached-held :
      (key name : String) (w : W) (o : Option AccessToken)
      → (read_cached c key name w).0 ≡ ok o
      → o ≡ held w key
  unfolding read_cached
  read_cached-held key name w o h = ground (arith, store.get-held key w o)

  hit_or_mint-err :
      (key : String) (r : Resource) (now : Instant) (o : Option AccessToken) (w : W) (e : Error)
      (j : String)
      → (hit_or_mint c key r now o w).0 ≡ err e
      → held (hit_or_mint c key r now o w).1 j ≡ held w j
  unfolding hit_or_mint
  hit_or_mint-err key r now none w e j h = mint_call-err key r w e j h
  hit_or_mint-err key r now (some t) w e j h = ground (arith, mint_call-err key r w e j)

  pub hit_or_mint-ok :
      (key : String) (r : Resource) (now : Instant) (o : Option AccessToken) (w : W)
      (t : AccessToken) (j : String)
      → (hit_or_mint c key r now o w).0 ≡ ok t
      → o ≡ held w key
      → held (hit_or_mint c key r now o w).1 j ≡ (if key == j then some t else held w j)
  unfolding hit_or_mint
  hit_or_mint-ok key r now o w t j h e = ground (arith, mint_call-ok key r w t j, eq_iff key j)

  -- Over a store that keeps its contract, with a clock and a token source that leave the store
  -- alone: a call of Token that fails leaves what the store holds as it was.
  pub token_failure_spares :
      (name : String) (w : W) (e : Error) (j : String)
      → (token namespaced_key c name w).0 ≡ err e
      → held (token namespaced_key c name w).1 j ≡ held w j
  unfolding token
  token_failure_spares name w e j h =
      grind (arith, hit_or_mint-err, cache_now-Spares, read_cached-Spares)

  -- Over a store that keeps its contract, with a clock and a token source that leave the store
  -- alone: what Token returns is in the store afterwards, under the key of the named resource, and
  -- no other key has changed.
  pub token_is_cached :
      (name key : String) (w : W) (t : AccessToken) (j : String)
      → cache_key namespaced_key c name ≡ ok key
      → (token namespaced_key c name w).0 ≡ ok t
      → held (token namespaced_key c name w).1 j ≡ (if key == j then some t else held w j)
  unfolding token
  token_is_cached name key w t j k h =
      let w' = (cache_now c w).1 in
      let w'' = (read_cached c key name w').1 in
      elim (Result-cases (require_resource c.tree name)) [
        | inr (e, er) ↦ ground arith
        | inl (r, er) ↦ elim (Result-cases (cache_now c w).0) [
          | inr (e, en) ↦ ground arith
          | inl (now, en) ↦ elim (Result-cases (read_cached c key name w').0) [
            | inr (e, eo) ↦ ground arith
            | inl (o, eo) ↦ ground (
              arith,
              hit_or_mint-ok key r now o w'' t j,
              read_cached-held key name w' o,
              cache_now-Spares w j,
              cache_now-Spares w key,
              read_cached-Spares key name w' j,
              read_cached-Spares key name w' key,
            )
          ]
        ]
      ]

  hit_or_mint-hit :
      (key : String) (r : Resource) (now : Instant) (t : AccessToken) (w : W)
      → expired t now c.skew ≡ false
      → hit_or_mint c key r now (some t) w ≡ (ok t, w)
  unfolding hit_or_mint
  hit_or_mint-hit key r now t w live = ground arith

  pub token-hit :
      (name key : String) (r : Resource) (w : W) (t : AccessToken) (now : Instant)
      (o : Option AccessToken)
      → require_resource c.tree name ≡ ok r
      → cache_key namespaced_key c name ≡ ok key
      → held w key ≡ some t
      → (c.clock.now_utc w).0 ≡ ok now
      → (c.store.get key (c.clock.now_utc w).1).0 ≡ ok o
      → expired t now c.skew ≡ false
      → token namespaced_key c name w ≡ (ok t, (c.store.get key (c.clock.now_utc w).1).1)
  unfolding token cache_now read_cached
  token-hit name key r w t now o er ek ht en eo live =
      let w' = (c.clock.now_utc w).1 in
      ground (
        arith,
        store.get-held key w' o,
        clock_spares w key,
        hit_or_mint-hit key r now t (c.store.get key w').1,
      )

  -- Over a store that keeps its contract, with a clock and a token source that leave the store
  -- alone: a token that Token returned is returned again while it lives. A second call whose clock
  -- and store answer, and whose clock is not within the skew of the expiry, returns the same token,
  -- and does nothing but read the clock and the store.
  pub token_again :
      (name key : String) (w : W) (t : AccessToken) (now : Instant) (o : Option AccessToken)
      → cache_key namespaced_key c name ≡ ok key
      → (token namespaced_key c name w).0 ≡ ok t
      → (c.clock.now_utc (token namespaced_key c name w).1).0 ≡ ok now
      → (c.store.get key (c.clock.now_utc (token namespaced_key c name w).1).1).0 ≡ ok o
      → expired t now c.skew ≡ false
      → token namespaced_key c name (token namespaced_key c name w).1
        ≡ (ok t, (c.store.get key (c.clock.now_utc (token namespaced_key c name w).1).1).1)
  unfolding token
  token_again name key w t now o k h en eo live =
      elim (Result-cases (require_resource c.tree name)) [
        | inr (e, er) ↦ ground arith
        | inl (r, er) ↦
            token-hit name key r (token namespaced_key c name w).1 t now o er k
              (ground (arith, token_is_cached name key w t key k h, eq_refl key)) en eo live
      ]
