-- ===== src/Fakes/Fresh.antt =====
-- The access tokens that the fake provider of testhelper/provider.go mints.
use Prim.Native.String.append
use diene_go_auth_engine.Prelude.{
  ℕ, suc, ◌≤◌, Option, some, none, ◌≡◌, ◌≢◌, arith, [], refl, ◌++◌, ◌∷◌,
}
use diene_go_auth_engine.Token.{AccessToken, Resource, ResourceTokenRequest}
use diene_go_auth_engine.Problems.{ok, Error}
use diene_go_auth_engine.Fakes.{FakeProvider, fake_grant, fake_resource_token, fake_token}
use diene_go_auth_engine.Memory.{shift}
use diene_go_auth_engine.Text.Decimal.{itoa}
use diene_go_auth_engine.Text.Last.{after_last, after_last-append, itoa-after_dash, itoa-injective}

number-fake_token :
    (p : FakeProvider) (r : Resource) (n : ℕ)
    → after_last b'-' (fake_token p r n).value ≡ some (itoa n)
unfolding fake_token
number-fake_token p r n =
    after_last-append b'-' "access-" _ (itoa n)
      (rw append.cons (rw append.nil (itoa-after_dash r.name n)))

-- `grant` mints under a number that the fake has not used.
grant_number :
    (o : Option Error) (r : Resource) (p : FakeProvider) (t : AccessToken)
    → (fake_grant o r p).0 ≡ ok t
    → (after_last b'-' t.value ≡ some (itoa (suc p.minted)))
      × ((fake_grant o r p).1.minted ≡ suc p.minted)
unfolding fake_grant
grant_number (some e) r p t h = absurd (ground arith)
grant_number none r p t h = (ground (arith, number-fake_token p r (suc p.minted)), refl)

granted_number :
    (request : ResourceTokenRequest) (p : FakeProvider) (t : AccessToken)
    → (fake_resource_token request p).0 ≡ ok t
    → (after_last b'-' t.value ≡ some (itoa (suc p.minted)))
      × ((fake_resource_token request p).1.minted ≡ suc p.minted)
unfolding fake_resource_token
granted_number request p t h =
    grant_number (shift p.resource_errors).0 request.resource
      (record p {
        resource_calls = p.resource_calls ++ (request ∷ []);
        resource_errors = (shift p.resource_errors).1;
      })
      t h

-- No two resource tokens that a fake provider mints are alike, whatever their resources: one that it
-- mints in any state that has minted as many tokens as the state after the first has another value.
pub fake_mints_fresh :
    (request request' : ResourceTokenRequest) (p q : FakeProvider) (t t' : AccessToken)
    → (fake_resource_token request p).0 ≡ ok t
    → (fake_resource_token request p).1.minted ≤ q.minted
    → (fake_resource_token request' q).0 ≡ ok t'
    → t.value ≢ t'.value
fake_mints_fresh request request' p q t t' h later h' same =
    let (n, count) = granted_number request p t h in
    let (m, count') = granted_number request' q t' h' in
    let numbers : suc p.minted ≡ suc q.minted =
      itoa-injective (suc p.minted) (suc q.minted) (ground arith) in
    omega arith
