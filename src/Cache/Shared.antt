-- ===== src/Cache/Shared.antt =====
-- The cache of lib/authengine/cache.go over the single flight of flight.go: callers that share a mint.
use diene_go_auth_engine.Prelude.{String, List, [], ◌∷◌, ℕ, ◌≡◌, arith}
use diene_go_auth_engine.Cache.{TokenCache, cache_key, mint_call}
use diene_go_auth_engine.Cache.Ownership.{IsDeclared, KeysApart}
use diene_go_auth_engine.Flight.{
  Action, Flight, act, after, continues, enters, mint_returns, minting, new_token_flight, returned,
}
use diene_go_auth_engine.Flight.Outcomes.{AllMint, returns_for_its_key}
use diene_go_auth_engine.Problems.{Result, ok}
use diene_go_auth_engine.Token.{AccessToken, Resource}

module _ {W : Type 0} (namespaced_key : String → String → Result String) (c : TokenCache W) where
  -- A mint that returns what the cache's mint of some declared resource under the caller's key returns in some
  -- world
  abbrev pub IsCacheMint : Flight → Action → Type 0
  IsCacheMint s (mint_returns i r) =
      (s.routines i).stage ≡ minting
      → (resource : Resource) × (w : W) × IsDeclared c.tree resource.name
        × (cache_key namespaced_key c resource.name ≡ ok (s.routines i).key)
        × (r ≡ (mint_call c (s.routines i).key resource w).0)
  IsCacheMint s (enters i k) = Unit {0}
  IsCacheMint s (continues i) = Unit {0}

  abbrev pub AllCacheMints : Flight → List Action → Type 0
  AllCacheMints s [] = Unit {0}
  AllCacheMints s (a ∷ actions) = IsCacheMint s a × AllCacheMints (act s a) actions

  -- The token is of every declared name whose key it is.
  abbrev OfKey : String → AccessToken → Type 0
  OfKey key t =
      (name : String)
      → IsDeclared c.tree name
      → cache_key namespaced_key c name ≡ ok key
      → t.resource ≡ name

  mint_call-resource :
      (key : String) (r : Resource) (w : W) (t : AccessToken)
      → (mint_call c key r w).0 ≡ ok t
      → t.resource ≡ r.name
  unfolding mint_call
  mint_call-resource key r w t h = grind arith

  module _ (apart : KeysApart namespaced_key c) where
    mints_own :
        (s : Flight) (actions : List Action) → AllCacheMints s actions → AllMint OfKey s actions
    mints_own s [] h = tt
    mints_own s (enters i k ∷ actions) h = (tt, mints_own (act s (enters i k)) actions h.1)
    mints_own s (continues i ∷ actions) h = (tt, mints_own (act s (continues i)) actions h.1)
    mints_own s (mint_returns i r ∷ actions) h = (
      (λ t k m e is name dn ek.
          (let (resource, w, declared, own, out) = h.0 m in
            unfold cache_key in
            ground (
              arith,
              mint_call-resource (s.routines i).key resource w t,
              apart name resource.name k dn declared,
            ))),
      mints_own (act s (mint_returns i r)) actions h.1,
    )

    -- Callers of Token that share a mint get their own resource's token: where no two declared names
    -- have one key, whatever the schedule of the callers, if every mint that returns is the cache's
    -- mint of a declared resource of the key that its caller entered with, then each caller that
    -- returns a token returns one of the declared resource whose key it entered with.
    pub shared_token-resource :
        (actions : List Action) (i : ℕ) (name : String) (t : AccessToken)
        → AllCacheMints new_token_flight actions
        → ((after actions).routines i).stage ≡ returned
        → IsDeclared c.tree name
        → cache_key namespaced_key c name ≡ ok ((after actions).routines i).key
        → ((after actions).routines i).result ≡ ok t
        → t.resource ≡ name
    shared_token-resource actions i name t good done dn ek is =
        returns_for_its_key OfKey actions i t (mints_own new_token_flight actions good) done is name
          dn ek
