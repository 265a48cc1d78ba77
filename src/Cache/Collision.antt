-- ===== src/Cache/Collision.antt =====
-- Two names of one key in the cache of lib/authengine/cache.go: the key is a slug, and what is cached
-- under it is not asked whose it is.
use diene_go_auth_engine.Prelude.{String, Option, arith, eq_refl, ◌≡◌, ap, false}
use diene_go_auth_engine.Cache.{TokenCache, cache_key, token}
use diene_go_auth_engine.Cache.Coherence.{token-hit, token_is_cached}
use diene_go_auth_engine.Cache.Contents.{IsStore}
use diene_go_auth_engine.Cache.Ownership.{IsDeclared, OwnTokens, token-resource}
use diene_go_auth_engine.Effect.{Spares}
use diene_go_auth_engine.Problems.{Result, ok}
use diene_go_auth_engine.Resource.{require_resource}
use diene_go_auth_engine.Time.{Instant}
use diene_go_auth_engine.Token.{AccessToken, Resource, expired}

-- Over a store that keeps its contract, with a clock and a token source that leave the store
-- alone, where every name that the tree answers is the name of its answer: where two declared names
-- have one key, and every token under the key of a declared name is of that name's resource, then
-- after a call of Token with the one name, a call with the other whose clock and store answer, and
-- whose clock is not within the skew of the expiry, succeeds with the token of the first one.
pub colliding_names_share :
    {W : Type 0} (namespaced_key : String → String → Result String) (c : TokenCache W)
    {held : W → String → Option AccessToken} (store : IsStore c.store held)
    (clock_spares : Spares held c.clock.now_utc)
    (mint_spares : (r : Resource) → Spares held (c.source.mint r))
    (named : (n : String) (r : Resource) → require_resource c.tree n ≡ ok r → r.name ≡ n)
    (name other key : String) (w : W) (t : AccessToken) (now : Instant) (o : Option AccessToken)
    → IsDeclared c.tree other
    → cache_key namespaced_key c name ≡ ok key
    → cache_key namespaced_key c other ≡ ok key
    → OwnTokens namespaced_key c held w
    → (token namespaced_key c name w).0 ≡ ok t
    → (c.clock.now_utc (token namespaced_key c name w).1).0 ≡ ok now
    → (c.store.get key (c.clock.now_utc (token namespaced_key c name w).1).1).0 ≡ ok o
    → expired t now c.skew ≡ false
    → ((token namespaced_key c other (token namespaced_key c name w).1).0 ≡ ok t)
      × (t.resource ≡ name)
colliding_names_share namespaced_key c store clock_spares mint_spares named name other key w t now o
      (r, er) kn ko own h en eo live =
    let w' = (token namespaced_key c name w).1 in
    let cached =
      token_is_cached namespaced_key c store clock_spares mint_spares name key w t key kn h in
    let hits =
      token-hit namespaced_key c store clock_spares mint_spares other key r w' t now o er ko
        (ground (arith, cached, eq_refl key)) en eo live in
    (
      ap (λ x. x.0) hits,
      token-resource namespaced_key c store clock_spares mint_spares named name w t own h,
    )
