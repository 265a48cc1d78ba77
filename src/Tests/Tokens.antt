-- ===== src/Tests/Tokens.antt =====
-- The token cache over the memory store: a mint, a hit, and an eviction.
use diene_go_auth_engine.Prelude.{
  String, some, [], ◌∷◌, ◌≡◌, refl, arith, eq_iff, false, none, true, List, if◌then◌else◌, ◌==◌,
  ◌⊎◌, inl, inr,
}
use diene_go_auth_engine.Memory.{
  MemoryTokenStore, memory_get, memory_set, memory_tokens, new_memory_token_store, shift,
}
use diene_go_auth_engine.Token.{
  Resource, default_refresh_skew, session_source, expired, AccessToken,
}
use diene_go_auth_engine.Problems.{Result, ok, plain, Error, err, provider_unavailable, raise_from}
use diene_go_auth_engine.Effect.{Spares}
use diene_go_auth_engine.Cache.{
  TokenCache, cache_key, cache_now, hit_or_mint, read_cached, token, mint_call,
}
use diene_go_auth_engine.Memory.Laws.{held_tokens, memory_tokens-IsStore}
use diene_go_auth_engine.Value.{lookup, text, insert, remove}
use diene_go_auth_engine.Tests.Fixtures.{minted, problems, provider, session, still, zinc, alice}
use diene_go_auth_engine.Prelude.Int.{pos, ◌+ℤ◌}
use diene_go_auth_engine.Resource.{require_resource}
use diene_go_auth_engine.Cache.Coherence.{token_again}
use diene_go_auth_engine.Cache.Ownership.{
  OwnTokens, token-OwnTokens, token-resource, KeysApart, IsDeclared,
}
use diene_go_auth_engine.Time.{add, before}
use diene_go_auth_engine.Onboard.{
  Backend, Sync, attempt, build_registration, confirm, reconcile, register, settle,
}
use diene_go_auth_engine.Claims.{claim, claims_flag}
use diene_go_auth_engine.Principal.{registered, registration_claim}
use diene_go_auth_engine.Onboard.OwnToken.{registers_with_own_token}
use diene_go_auth_engine.Text.{replace_dashes}
use diene_go_auth_engine.Flight.{
  Action, act, close_done, continues, enter, enters, go_on, join, lead, mint_returns,
  new_token_flight, record_outcome, run, unfile, wake,
}
use diene_go_auth_engine.Cache.Shared.{shared_token-resource}

-- Names that differ in case have one key, as where names are slugified.
abbrev pub key_of : String → String → Result String
key_of namespace name = if name == "Zinc" then ok "zinc" else ok name

-- A second declared resource
abbrev tin : Resource
tin = record zinc { name = "tin"; indicator = "https://tin" }

abbrev pub cache : TokenCache MemoryTokenStore
cache = record {
  tree = record {
    problems = problems;
    ordered = zinc ∷ tin ∷ [];
    index = ("zinc", zinc) ∷ ("tin", tin) ∷ [];
  };
  store = memory_tokens;
  source = session_source provider session;
  problems = problems;
  clock = still;
  namespace = "auth-token";
  skew = default_refresh_skew;
  concurrency = pos 4;
}

abbrev pub start : MemoryTokenStore
start = new_memory_token_store

-- A store that fails its next operation
abbrev broken : MemoryTokenStore
broken = record { entries = ("zinc", minted) ∷ []; errors = plain "down" ∷ [] }

pub source-Spares : (r : Resource) → Spares held_tokens (cache.source.mint r)
unfolding session_source
source-Spares r w j = refl

pub clock-Spares : Spares held_tokens cache.clock.now_utc
clock-Spares w j = refl

minted_token : (token key_of cache "zinc" start).0 ≡ ok minted
unfolding token require_resource lookup cache_key cache_now read_cached hit_or_mint memory_get
    memory_set mint_call session_source
minted_token = refl

abbrev lost : Error
lost =
    raise_from problems provider_unavailable (plain "down") "the token store could not be read"
      (("resource", text "zinc") ∷ [])

token-lost : (token key_of cache "zinc" broken).0 ≡ err lost
unfolding token require_resource lookup cache_key cache_now read_cached hit_or_mint memory_get
token-lost = refl

token_again_example : token key_of cache "zinc" (token key_of cache "zinc" start).1 ≡ (
  ok minted,
  (cache.store.get "zinc" (cache.clock.now_utc (token key_of cache "zinc" start).1).1).1,
)
unfolding token require_resource lookup cache_key cache_now read_cached hit_or_mint memory_get
    memory_set mint_call session_source expired before add ◌+ℤ◌
token_again_example =
    token_again key_of cache memory_tokens-IsStore clock-Spares source-Spares "zinc" "zinc" start
      minted (pos 1000) (some minted) refl minted_token refl refl refl

declared_names : (n : String) → IsDeclared cache.tree n → (n ≡ "zinc") ⊎ (n ≡ "tin")
unfolding require_resource lookup
declared_names n d = ground (arith, d.1, eq_iff "zinc" n, eq_iff "tin" n)

key_of-declared : (n : String) → (n ≡ "zinc") ⊎ (n ≡ "tin") → key_of cache.namespace n ≡ ok n
key_of-declared n (inl e) = rw e refl
key_of-declared n (inr e) = rw e refl

-- The declared names have keys of their own, though Zinc and zinc have one.
cache-KeysApart : KeysApart key_of cache
cache-KeysApart n m k dn dm en em =
    let kn = key_of-declared n (declared_names n dn) in
    let km = key_of-declared m (declared_names m dm) in ground (arith, kn, km)

cache-named : (n : String) (r : Resource) → require_resource cache.tree n ≡ ok r → r.name ≡ n
unfolding require_resource lookup
cache-named n r h = ground (arith, eq_iff "zinc" n, eq_iff "tin" n)

-- A store that holds a token of zinc
abbrev filled : MemoryTokenStore
filled = record { entries = ("zinc", minted) ∷ []; errors = [] }

filled-OwnTokens : OwnTokens key_of cache held_tokens filled
unfolding lookup
filled-OwnTokens n k t dn en h =
    ground (arith, eq_iff "zinc" k, key_of-declared n (declared_names n dn))

token-hits : (token key_of cache "zinc" filled).0 ≡ ok minted
unfolding token require_resource lookup cache_key cache_now read_cached hit_or_mint memory_get
    expired before add ◌+ℤ◌
token-hits = refl

token-resource_example : minted.resource ≡ "zinc"
token-resource_example =
    token-resource key_of cache memory_tokens-IsStore clock-Spares source-Spares cache-named "zinc"
      filled minted filled-OwnTokens token-hits

token-OwnTokens_example : OwnTokens key_of cache held_tokens (token key_of cache "zinc" filled).1
token-OwnTokens_example =
    token-OwnTokens key_of cache memory_tokens-IsStore clock-Spares source-Spares cache-named "zinc"
      filled cache-KeysApart filled-OwnTokens

-- A round over the cache, with a backend that has no row
abbrev round_backend : Backend MemoryTokenStore
round_backend = record {
  name = "zinc";
  exists = λ t w. (ok false, w);
  create = λ t registration w. (ok tt, w);
  configured = none;
}

abbrev slugify : String → String
slugify name = name

abbrev cached_sync : Sync MemoryTokenStore
cached_sync = record {
  backends = round_backend ∷ [];
  claims = record { set_claim = λ subject name value w. (ok tt, w) };
  refresher = record {
    refresh = λ subject w. (ok (record alice { claims = ("zinc", text "true") ∷ [] }), w);
  };
  tokens = record { token = token key_of cache };
  problems = problems;
}

round-created : (reconcile slugify cached_sync alice round_backend filled).0.created ≡ true
unfolding reconcile registered claims_flag claim lookup registration_claim replace_dashes attempt
    register confirm settle token require_resource cache_key cache_now read_cached hit_or_mint
    memory_get expired before add ◌+ℤ◌
round-created = refl

registers_with_own_token_example :
    (t : AccessToken) × (t.resource ≡ "zinc")
    × ((token key_of cache "zinc" filled).0 ≡ ok t)
    × ((round_backend.create t
          (build_registration alice t)
          (round_backend.exists t (token key_of cache "zinc" filled).1).1).0
        ≡ ok tt)
    × ((build_registration alice t).access_token ≡ t.value)
registers_with_own_token_example =
    registers_with_own_token key_of cache memory_tokens-IsStore clock-Spares source-Spares
      cache-named slugify cached_sync alice round_backend filled refl filled-OwnTokens round-created

-- Two callers of zinc, who share the mint of the first
abbrev callers : List Action
callers =
    enters 0 "zinc"
    ∷ enters 1 "zinc"
    ∷ mint_returns 0 (mint_call cache "zinc" zinc start).0
    ∷ continues 0
    ∷ continues 0
    ∷ continues 1
    ∷ []

shared_token-resource_example : minted.resource ≡ "zinc"
unfolding run act enter join lead lookup insert remove new_token_flight record_outcome go_on unfile
    close_done wake mint_call session_source cache_now memory_set shift cache_key require_resource
shared_token-resource_example =
    shared_token-resource key_of cache cache-KeysApart callers 1 "zinc" minted
      (tt, (tt, ((λ m. (zinc, start, (zinc, refl), refl, refl)), (tt, (tt, (tt, tt)))))) refl
      (zinc, refl) refl refl
