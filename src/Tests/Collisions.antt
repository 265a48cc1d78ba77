-- ===== src/Tests/Collisions.antt =====
-- A token cache whose tree declares two names of one key.
use diene_go_auth_engine.Prelude.{String, some, [], ◌∷◌, ◌≡◌, refl, arith, eq_iff}
use diene_go_auth_engine.Memory.{MemoryTokenStore, memory_get, memory_set}
use diene_go_auth_engine.Token.{Resource, session_source, expired}
use diene_go_auth_engine.Problems.{ok}
use diene_go_auth_engine.Cache.{
  TokenCache, cache_key, cache_now, hit_or_mint, read_cached, token, mint_call,
}
use diene_go_auth_engine.Memory.Laws.{held_tokens, memory_tokens-IsStore}
use diene_go_auth_engine.Value.{lookup}
use diene_go_auth_engine.Tests.Fixtures.{minted, problems, zinc}
use diene_go_auth_engine.Prelude.Int.{pos, ◌+ℤ◌}
use diene_go_auth_engine.Resource.{require_resource}
use diene_go_auth_engine.Cache.Collision.{colliding_names_share}
use diene_go_auth_engine.Cache.Ownership.{OwnTokens}
use diene_go_auth_engine.Time.{add, before}
use diene_go_auth_engine.Tests.Tokens.{cache, clock-Spares, key_of, source-Spares, start}

-- A cache whose tree declares zinc and Zinc, which have one key
abbrev capitals : TokenCache MemoryTokenStore
capitals = record cache {
  tree = record {
    problems = problems;
    ordered = zinc ∷ record zinc { name = "Zinc" } ∷ [];
    index = ("zinc", zinc) ∷ ("Zinc", record zinc { name = "Zinc" }) ∷ [];
  };
}

capitals-named : (n : String) (r : Resource) → require_resource capitals.tree n ≡ ok r → r.name ≡ n
unfolding require_resource lookup
capitals-named n r h = ground (arith, eq_iff "zinc" n, eq_iff "Zinc" n)

start-OwnTokens : OwnTokens key_of capitals held_tokens start
unfolding lookup
start-OwnTokens n k t dn en h = ground arith

zinc_minted : (token key_of capitals "zinc" start).0 ≡ ok minted
unfolding token require_resource lookup cache_key cache_now read_cached hit_or_mint memory_get
    memory_set mint_call session_source
zinc_minted = refl

colliding_names_share_example :
    ((token key_of capitals "Zinc" (token key_of capitals "zinc" start).1).0 ≡ ok minted)
    × (minted.resource ≡ "zinc")
unfolding token require_resource lookup cache_key cache_now read_cached hit_or_mint memory_get
    memory_set mint_call session_source expired before add ◌+ℤ◌
colliding_names_share_example =
    colliding_names_share key_of capitals memory_tokens-IsStore clock-Spares source-Spares
      capitals-named "zinc" "Zinc" "zinc" start minted (pos 1000) (some minted)
      (record zinc { name = "Zinc" }, refl) refl refl start-OwnTokens zinc_minted refl refl refl
