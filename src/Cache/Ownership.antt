-- ===== src/Cache/Ownership.antt =====
-- No caller of the cache of lib/authengine/cache.go gets a token that was minted for another
-- backend than the one it named.
use diene_go_auth_engine.Token.{AccessToken, Resource}
use diene_go_auth_engine.Time.{Instant}
use diene_go_auth_engine.Cache.Contents.{IsStore}
use diene_go_auth_engine.Prelude.{
  Option, String, arith, inl, inr, some, ◌≡◌, ◌⊎◌, eq_iff, sym, ◌∙◌, ◌≢◌,
}
use diene_go_auth_engine.Problems.{Result, ok, Error, err}
use diene_go_auth_engine.Effect.{Result-cases, Spares}
use diene_go_auth_engine.Cache.{
  TokenCache, cache_key, cache_now, hit_or_mint, invalidate, read_cached, token,
}
use diene_go_auth_engine.Cache.Coherence.{
  cache_now-Spares, mint_call-ok, read_cached-held, token_failure_spares, token_is_cached,
}
use diene_go_auth_engine.Resource.{ResourceTree, require_resource}

-- A name that the tree declares
abbrev pub IsDeclared : ResourceTree → String → Type 0
IsDeclared tree name = (r : Resource) × (require_resource tree name ≡ ok r)

-- No two names that the tree declares have one key. NamespacedKey slugifies a name, so this is a
-- condition on the declared names: it fails where two of them slugify alike.
abbrev pub KeysApart : {W : Type 0} → (String → String → Result String) → TokenCache W → Type 0
KeysApart namespaced_key c =
    (n m k : String)
    → IsDeclared c.tree n
    → IsDeclared c.tree m
    → namespaced_key c.namespace n ≡ ok k
    → namespaced_key c.namespace m ≡ ok k
    → n ≡ m

-- Every cached token under the key of a declared name was minted for the resource of that name.
abbrev pub OwnTokens :
    {W : Type 0}
    → (String → String → Result String)
    → TokenCache W
    → (W → String → Option AccessToken)
    → W
    → Type 0
OwnTokens namespaced_key c held w =
    (n k : String) (t : AccessToken)
    → IsDeclared c.tree n
    → namespaced_key c.namespace n ≡ ok k
    → held w k ≡ some t
    → t.resource ≡ n

module _ {W : Type 0} (namespaced_key : String → String → Result String) (c : TokenCache W)
    {held : W → String → Option AccessToken} (store : IsStore c.store held)
    (clock_spares : Spares held c.clock.now_utc)
    (mint_spares : (r : Resource) → Spares held (c.source.mint r))
    (named : (n : String) (r : Resource) → require_resource c.tree n ≡ ok r → r.name ≡ n) where
  hit_or_mint-resource :
      (key : String) (r : Resource) (now : Instant) (o : Option AccessToken) (w : W)
      (t : AccessToken)
      → (hit_or_mint c key r now o w).0 ≡ ok t
      → (o ≡ some t) ⊎ (t.resource ≡ r.name)
  unfolding hit_or_mint
  hit_or_mint-resource key r now o w t h =
      ground (arith, mint_call-ok namespaced_key c store clock_spares mint_spares key r w t key)

  -- Over a store that keeps its contract, with a clock and a token source that leave the store
  -- alone, where every name that the tree answers is the name of its answer: from a cache in which
  -- every token under the key of a declared name is of that name's resource, a call of Token that
  -- succeeds returns a token of the named resource.
  pub token-resource :
      (name : String) (w : W) (t : AccessToken)
      → OwnTokens namespaced_key c held w
      → (token namespaced_key c name w).0 ≡ ok t
      → t.resource ≡ name
  unfolding token cache_key
  token-resource name w t own h =
      let w' = (cache_now c w).1 in
      elim (Result-cases (require_resource c.tree name)) [
        | inr (e, er) ↦ ground arith
        | inl (r, er) ↦ elim (Result-cases (namespaced_key c.namespace name)) [
          | inr (e, ek) ↦ ground arith
          | inl (key, ek) ↦ elim (Result-cases (cache_now c w).0) [
            | inr (e, en) ↦ ground arith
            | inl (now, en) ↦ elim (Result-cases (read_cached c key name w').0) [
              | inr (e, eo) ↦ ground arith
              | inl (o, eo) ↦ ground (
                arith,
                hit_or_mint-resource key r now o (read_cached c key name w').1 t,
                read_cached-held namespaced_key c store clock_spares mint_spares key name w' o,
                cache_now-Spares namespaced_key c store clock_spares mint_spares w key,
                own name key t (r, er),
                named name r,
              )
            ]
          ]
        ]
      ]

  token-IsDeclared :
      (name : String) (w : W) (t : AccessToken)
      → (token namespaced_key c name w).0 ≡ ok t
      → IsDeclared c.tree name
  unfolding token
  token-IsDeclared name w t h = elim (Result-cases (require_resource c.tree name)) [
    | inr (e, er) ↦ absurd (ground arith)
    | inl (r, er) ↦ (r, er)
  ]

  token-key :
      (name : String) (w : W) (t : AccessToken) (e : Error)
      → (token namespaced_key c name w).0 ≡ ok t
      → cache_key namespaced_key c name ≢ err e
  unfolding token
  token-key name w t e h ek = ground arith

  -- Over a store that keeps its contract, with a clock and a token source that leave the store
  -- alone, where every name that the tree answers is the name of its answer and no two declared
  -- names have one key: if every cached token under the key of a declared name is of that name's
  -- resource, then so it is after a call of Token, also after one that fails.
  pub token-OwnTokens :
      (name : String) (w : W)
      → KeysApart namespaced_key c
      → OwnTokens namespaced_key c held w
      → OwnTokens namespaced_key c held (token namespaced_key c name w).1
  token-OwnTokens name w apart own n k t dn ek ht =
      elim (Result-cases (token namespaced_key c name w).0) [
        | inr (e, h) ↦ own n k t dn ek (
            sym (token_failure_spares namespaced_key c store clock_spares mint_spares name w e k h)
            ∙ ht)
        | inl (t', h) ↦ elim (Result-cases (cache_key namespaced_key c name)) [
          | inr (e, bad) ↦ absurd (token-key name w t' e h bad)
          | inl (key, ck) ↦
              let cached =
                token_is_cached namespaced_key c store clock_spares mint_spares name key w t' k ck
                  h in
              let declared = token-IsDeclared name w t' h in
              unfold cache_key in
              ground (
                arith,
                cached,
                token-resource name w t' own h,
                apart n name k dn declared,
                eq_iff key k,
                own n k t dn,
              )
        ]
      ]

  -- Over a store that keeps its contract, with a clock and a token source that leave the store
  -- alone: if every cached token under the key of a declared name is of that name's resource, then
  -- so it is after a call of Invalidate, also after one that fails.
  pub invalidate-OwnTokens :
      (name : String) (w : W)
      → OwnTokens namespaced_key c held w
      → OwnTokens namespaced_key c held (invalidate namespaced_key c name w).1
  unfolding invalidate cache_key
  invalidate-OwnTokens name w own n k t dn ek ht =
      elim (Result-cases (namespaced_key c.namespace name)) [
        | inr (e, bad) ↦ ground (arith, own n k t dn)
        | inl (key, ck) ↦ elim (Result-cases (c.store.delete key w).0) [
          | inr (e, h) ↦ ground (arith, own n k t dn, store.held-delete_failed key w k e)
          | inl (u, h) ↦ ground (arith, own n k t dn, store.held-delete key w k)
        ]
      ]
