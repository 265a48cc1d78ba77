-- ===== src/Cache.antt =====
-- lib/authengine/cache.go: the per-resource token cache. The methods here are those of one caller
-- that meets no other; what concurrent callers see is in Flight. `NamespacedKey` and
-- `MapConcurrent` of the core-utils library are parameters.
pub mod Contents
pub mod Coherence
pub mod Ownership
pub mod Collision
pub mod Shared
use diene_go_auth_engine.Token.{
  AccessToken, Resource, TokenSource, default_refresh_skew, expired, ttl,
}
use diene_go_auth_engine.Value.{Assoc, insert, text}
use diene_go_auth_engine.Prelude.{
  Bool, List, Option, String, [], arith, if◌then◌else◌, none, some, ◌==◌, ◌∷◌,
}
use diene_go_auth_engine.Effect.{Clock, Eff, lift, map_err, on_err, pure, ◌>>=◌, ◌>>◌}
use diene_go_auth_engine.Time.{Duration, Instant, is_zero}
use diene_go_auth_engine.Problems.{
  Problems, Result, config_invalid, err, ok, plain, provider_unavailable, raise, raise_from,
}
use diene_go_auth_engine.Resource.{ResourceTree, names, require_resource}
use diene_go_auth_engine.Prelude.Int.{ltb_ℤ, pos, ℤ}

-- The TokenStore seam
pub record TokenStore (W : Type 0) : Type 0 where
  pub get : String → Eff W (Option AccessToken)
  pub set : String → AccessToken → Duration → Eff W (Unit {0})
  pub delete : String → Eff W (Unit {0})

abbrev pub default_token_namespace : String
default_token_namespace = "auth-token"

abbrev pub default_token_concurrency : ℤ
default_token_concurrency = pos 4

pub record TokenCacheOptions (W : Type 0) : Type 0 where
  pub tree : ResourceTree
  pub store : Option (TokenStore W)
  pub source : Option (TokenSource W)
  pub problems : Option Problems
  pub clock : Option (Clock W)
  pub namespace : String
  pub skew : Duration
  pub concurrency : ℤ

-- The flight group of a cache is the state of Flight, and not a field here.
pub record TokenCache (W : Type 0) : Type 0 where
  pub tree : ResourceTree
  pub store : TokenStore W
  pub source : TokenSource W
  pub problems : Problems
  pub clock : Clock W
  pub namespace : String
  pub skew : Duration
  pub concurrency : ℤ

-- The map that TokenCache.All returns: the token of each name, by position
unfoldable pub resolved : List String → List AccessToken → Assoc AccessToken → Assoc AccessToken
resolved (n ∷ ns) (t ∷ ts) m = resolved ns ts (insert n t m)
resolved ns ts m = m

module _ {W : Type 0} where
  -- NewTokenCache
  unfoldable pub new_token_cache : TokenCacheOptions W → Result (TokenCache W)
  new_token_cache options = elim options.problems [
    | none ↦ err (plain "auth-engine token cache requires a problem factory")
    | some p ↦ elim options.store [
      | none ↦
          err (
            raise p config_invalid "a token store is required so tokens survive beyond one call" [])
      | some store ↦ elim options.source [
        | none ↦
            err (raise p config_invalid "a token source is required to mint on a cache miss" [])
        | some source ↦ elim options.clock [
          | none ↦ err (
              raise p config_invalid "a clock seam is required so token expiry stays injectable" [])
          | some clock ↦ ok (record {
            tree = options.tree;
            store = store;
            source = source;
            problems = p;
            clock = clock;
            namespace =
                if options.namespace == "" then default_token_namespace else options.namespace;
            skew = if is_zero options.skew then default_refresh_skew else options.skew;
            concurrency =
                if ltb_ℤ (pos 0) options.concurrency
                then options.concurrency
                else default_token_concurrency;
          })
        ]
      ]
    ]
  ]

  -- TokenCache.now
  unfoldable pub cache_now : TokenCache W → Eff W Instant
  cache_now c =
      on_err
        (λ e.
          raise_from c.problems provider_unavailable e
            "the clock seam could not supply the current instant" [])
        c.clock.now_utc

  -- The mint that TokenCache.mint hands to the flight group
  unfoldable pub mint_call : TokenCache W → String → Resource → Eff W AccessToken
  unfolding cache_now
  mint_call c key resource = do
    minted ← c.source.mint resource
    let token = record minted { resource = resource.name }
    now ← cache_now c
    on_err
        (λ e.
          raise_from c.problems provider_unavailable e "the minted token could not be cached"
            (("resource", text resource.name) ∷ []))
        (c.store.set key token (ttl token now))
    pure token

  -- The read of the store in TokenCache.Token
  unfoldable pub read_cached : TokenCache W → String → String → Eff W (Option AccessToken)
  read_cached c key name =
      on_err
        (λ e.
          raise_from c.problems provider_unavailable e "the token store could not be read"
            (("resource", text name) ∷ []))
        (c.store.get key)

  -- The token that was found, unless it is spent
  unfoldable pub usable : TokenCache W → Instant → Option AccessToken → Option AccessToken
  usable c now none = none
  usable c now (some cached) = if expired cached now c.skew then none else some cached

  -- The end of TokenCache.Token: the token that was found, or a new one
  unfoldable pub hit_or_mint :
      TokenCache W → String → Resource → Instant → Option AccessToken → Eff W AccessToken
  unfolding usable
  hit_or_mint c key resource now found = elim (usable c now found) [
    | some cached ↦ pure cached
    | none ↦ mint_call c key resource
  ]

module _ {W : Type 0} (namespaced_key : String → String → Result String) where
  -- TokenCache.Key
  unfoldable pub cache_key : TokenCache W → String → Result String
  cache_key c name =
      map_err
        (λ e.
          raise_from c.problems config_invalid e "the resource name is not a usable cache key"
            (("resource", text name) ∷ []))
        (namespaced_key c.namespace name)

  -- TokenCache.Token, for a caller whose mint joins no other
  unfoldable pub token : TokenCache W → String → Eff W AccessToken
  token c name = do
    resource ← lift (require_resource c.tree name)
    key ← lift (cache_key c name)
    now ← cache_now c
    found ← read_cached c key name
    hit_or_mint c key resource now found

  -- TokenCache.Invalidate
  unfoldable pub invalidate : TokenCache W → String → Eff W (Unit {0})
  invalidate c name = do
    key ← lift (cache_key c name)
    on_err
        (λ e.
          raise_from c.problems provider_unavailable e "the token store could not be written"
            (("resource", text name) ∷ []))
        (c.store.delete key)

  -- TokenCache.All
  unfoldable pub all_tokens :
      (List String → ℤ → (String → Eff W AccessToken) → Eff W (List AccessToken))
      → TokenCache W
      → Eff W (Assoc AccessToken)
  all_tokens map_concurrent c = do
    tokens ← map_concurrent (names c.tree) c.concurrency (token c)
    pure (resolved (names c.tree) tokens [])
