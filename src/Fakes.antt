-- ===== src/Fakes.antt =====
-- testhelper/provider.go, backend.go and ping.go: the scriptable fakes behind the seams. Each keeps
-- the calls that it got and the errors that its next calls fail with; a queued error is one that is
-- not nil.
pub mod Backends
pub mod Fresh
use Prim.Native.String
use diene_go_auth_engine.Prelude.{
  String, Option, none, some, List, [], ◌∷◌, ◌++◌, Bool, true, not, ℕ, suc, ◌*◌, if◌then◌else◌,
  arith,
}
use diene_go_auth_engine.Token.{
  AccessToken, ClientCredentialsRequest, OneTimeToken, OneTimeTokenRequest, Provider, Resource,
  ResourceTokenRequest, Session, access_token_lifetime, one_time_token_lifetime,
  refresh_token_lifetime,
}
use diene_go_auth_engine.Effect.{Eff, pure, ◌>>=◌}
use diene_go_auth_engine.Problems.{Error, Result, err, ok}
use diene_go_auth_engine.Time.{Instant, add, is_zero}
use diene_go_auth_engine.Value.{Value}
use diene_go_auth_engine.Text.Decimal.{itoa}
use diene_go_auth_engine.Prelude.Int.{pos}
use diene_go_auth_engine.Memory.{shift}
use diene_go_auth_engine.Claims.{unix}

pub record ClaimCall : Type 0 where
  pub subject : String
  pub name : String
  pub value : Value

pub record FakeProvider : Type 0 where
  pub resource_errors : List Error
  pub refresh_errors : List Error
  pub client_errors : List Error
  pub one_time_errors : List Error
  pub claim_errors : List Error
  pub resource_calls : List ResourceTokenRequest
  pub refresh_calls : List String
  pub client_calls : List ClientCredentialsRequest
  pub one_time_calls : List OneTimeTokenRequest
  pub claim_calls : List ClaimCall
  pub minted : ℕ
  pub instant : Instant
  pub rotate : Bool

pub record FakeProviderOptions : Type 0 where
  pub instant : Instant
  pub no_rotation : Bool

-- 2026-07-25 12:00 UTC, as seconds of the Unix epoch
abbrev pub fixed_now : Instant
fixed_now = unix (pos 1784980800)

-- NewFakeProvider
unfoldable pub new_fake_provider : FakeProviderOptions → FakeProvider
new_fake_provider options = record {
  resource_errors = [];
  refresh_errors = [];
  client_errors = [];
  one_time_errors = [];
  claim_errors = [];
  resource_calls = [];
  refresh_calls = [];
  client_calls = [];
  one_time_calls = [];
  claim_calls = [];
  minted = 0;
  instant = if is_zero options.instant then fixed_now else options.instant;
  rotate = not options.no_rotation;
}

-- EnqueueResourceTokenError, EnqueueRefreshError, EnqueueClientCredentialsError,
-- EnqueueOneTimeTokenError and EnqueueClaimError
unfoldable pub enqueue_resource_token_error : Error → FakeProvider → FakeProvider
enqueue_resource_token_error e p = record p { resource_errors = p.resource_errors ++ (e ∷ []) }

unfoldable pub enqueue_provider_refresh_error : Error → FakeProvider → FakeProvider
enqueue_provider_refresh_error e p = record p { refresh_errors = p.refresh_errors ++ (e ∷ []) }

unfoldable pub enqueue_client_credentials_error : Error → FakeProvider → FakeProvider
enqueue_client_credentials_error e p = record p { client_errors = p.client_errors ++ (e ∷ []) }

unfoldable pub enqueue_one_time_token_error : Error → FakeProvider → FakeProvider
enqueue_one_time_token_error e p = record p { one_time_errors = p.one_time_errors ++ (e ∷ []) }

unfoldable pub enqueue_claim_error : Error → FakeProvider → FakeProvider
enqueue_claim_error e p = record p { claim_errors = p.claim_errors ++ (e ∷ []) }

-- An error that is taken from its queue, or the result
abbrev pub unless {ℓ} : {A : Type ℓ} → Option Error → A → Result A
unless (some e) a = err e
unless none a = ok a

-- The token that `grant` mints for a resource as the n-th
unfoldable pub fake_token : FakeProvider → Resource → ℕ → AccessToken
fake_token p resource n = record {
  value = String.◌++◌ "access-" (String.◌++◌ resource.name (String.◌++◌ "-" (itoa n)));
  resource = resource.name;
  scopes = resource.scopes;
  issued_at = p.instant;
  expires_at = add p.instant access_token_lifetime;
}

-- `grant`, unless an error was taken from the queue
unfoldable pub fake_grant : Option Error → Resource → Eff FakeProvider AccessToken
unfolding fake_token
fake_grant (some e) resource p = (err e, p)
fake_grant none resource p =
    (ok (fake_token p resource (suc p.minted)), record p { minted = suc p.minted })

-- FakeProvider.ResourceToken
unfoldable pub fake_resource_token : ResourceTokenRequest → Eff FakeProvider AccessToken
unfolding shift fake_grant
fake_resource_token request p = fake_grant (shift p.resource_errors).0 request.resource (record p {
  resource_calls = p.resource_calls ++ (request ∷ []);
  resource_errors = (shift p.resource_errors).1;
})

-- FakeProvider.ClientCredentials
unfoldable pub fake_client_credentials : ClientCredentialsRequest → Eff FakeProvider AccessToken
unfolding shift fake_grant
fake_client_credentials request p =
    fake_grant (shift p.client_errors).0 request.resource (record p {
      client_calls = p.client_calls ++ (request ∷ []);
      client_errors = (shift p.client_errors).1;
    })

-- The refresh token that a fake answers a presented one with
unfoldable pub rotated_token : FakeProvider → String → String
rotated_token p presented = if p.rotate then String.◌++◌ presented "-rotated" else presented

-- FakeProvider.Refresh
unfoldable pub fake_refresh : String → Eff FakeProvider Session
unfolding shift fake_grant rotated_token
fake_refresh presented p =
    (fake_grant (shift p.refresh_errors).0 (record { name = ""; indicator = ""; scopes = [] })
        >>= λ access. pure (record {
          subject = "";
          access = access;
          refresh_token = rotated_token p presented;
          refresh_expires_at = add p.instant refresh_token_lifetime;
        }))
      (record p {
        refresh_calls = p.refresh_calls ++ (presented ∷ []);
        refresh_errors = (shift p.refresh_errors).1;
      })

-- FakeProvider.MintOneTimeToken
unfoldable pub fake_mint_one_time_token : OneTimeTokenRequest → Eff FakeProvider OneTimeToken
unfolding shift
fake_mint_one_time_token request p = (
  unless (shift p.one_time_errors).0 (record {
    value = String.◌++◌ "one-time-" request.subject;
    expires_at = add p.instant one_time_token_lifetime;
  }),
  record p {
    one_time_calls = p.one_time_calls ++ (request ∷ []);
    one_time_errors = (shift p.one_time_errors).1;
  },
)

-- FakeProvider.SetClaim
unfoldable pub fake_set_claim : String → String → Value → Eff FakeProvider (Unit {0})
unfolding shift
fake_set_claim subject name value p = (
  unless (shift p.claim_errors).0 tt,
  record p {
    claim_calls = p.claim_calls ++ (record { subject = subject; name = name; value = value } ∷ []);
    claim_errors = (shift p.claim_errors).1;
  },
)

-- FakeProvider behind the provider seam
abbrev pub fake_provider : Provider FakeProvider
fake_provider = record {
  resource_token = fake_resource_token;
  refresh = fake_refresh;
  client_credentials = fake_client_credentials;
  mint_one_time_token = fake_mint_one_time_token;
  set_claim = fake_set_claim;
}
