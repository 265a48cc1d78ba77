-- ===== src/Onboard/OwnToken.antt =====
-- A round of lib/onboard/sync.go over the token cache of lib/authengine/cache.go.
use diene_go_auth_engine.Prelude.{String, Option, true, ◌≡◌, ap, refl, sym, ◌∙◌}
use diene_go_auth_engine.Cache.{TokenCache, token}
use diene_go_auth_engine.Cache.Contents.{IsStore}
use diene_go_auth_engine.Cache.Ownership.{OwnTokens, token-resource}
use diene_go_auth_engine.Effect.{Spares}
use diene_go_auth_engine.Onboard.{Backend, Sync, build_registration, reconcile}
use diene_go_auth_engine.Onboard.Progress.{created_only_when_absent}
use diene_go_auth_engine.Principal.{Principal}
use diene_go_auth_engine.Problems.{Result, ok}
use diene_go_auth_engine.Resource.{require_resource}
use diene_go_auth_engine.Token.{AccessToken, Resource}

-- A round whose token retriever is the cache, over a store that keeps its contract, with a clock and
-- a token source that leave the store alone, where every name that the tree answers is the name of
-- its answer: where every cached token under the key of a declared name is of that name's resource,
-- a backend that the round reports as created accepted a registration that carries the value of a
-- token of that backend's own resource, and was called with that token.
pub registers_with_own_token :
    {W : Type 0} (namespaced_key : String → String → Result String) (c : TokenCache W)
    {held : W → String → Option AccessToken} (store : IsStore c.store held)
    (clock_spares : Spares held c.clock.now_utc)
    (mint_spares : (r : Resource) → Spares held (c.source.mint r))
    (named : (n : String) (r : Resource) → require_resource c.tree n ≡ ok r → r.name ≡ n)
    (slugify : String → String) (s : Sync W) (p : Principal) (b : Backend W) (w : W)
    → s.tokens.token ≡ token namespaced_key c
    → OwnTokens namespaced_key c held w
    → (reconcile slugify s p b w).0.created ≡ true
    → (t : AccessToken) × (t.resource ≡ b.name)
      × ((token namespaced_key c b.name w).0 ≡ ok t)
      × ((b.create t (build_registration p t) (b.exists t (token namespaced_key c b.name w).1).1).0
          ≡ ok tt)
      × ((build_registration p t).access_token ≡ t.value)
registers_with_own_token namespaced_key c store clock_spares mint_spares named slugify s p b w wires
      own created =
    let (lacks, (t, et, ef, ec)) = created_only_when_absent slugify s p b w created in
    let is : s.tokens.token b.name w ≡ token namespaced_key c b.name w =
      ap (λ f. f b.name w) wires in
    let et' : (token namespaced_key c b.name w).0 ≡ ok t = sym (ap (λ x. x.0) is) ∙ et in
    (
      t,
      token-resource namespaced_key c store clock_spares mint_spares named b.name w t own et',
      et',
      sym (ap (λ x. (b.create t (build_registration p t) (b.exists t x.1).1).0) is) ∙ ec,
      unfold build_registration in refl,
    )
