-- ===== src/Token.antt =====
-- lib/authengine/token.go and lifetimes.go: access tokens, sessions, the provider seam and the
-- lifetimes that the contract fixes.
pub mod Expiry
use diene_go_auth_engine.Prelude.{Bool, List, Option, String, [], arith, if◌then◌else◌, not, ℕ, ◌*◌}
use diene_go_auth_engine.Time.{Duration, Instant, add, before, sub, zero_time}
use diene_go_auth_engine.Effect.{Eff}
use diene_go_auth_engine.Value.{Value}
use diene_go_auth_engine.Prelude.Int.{ltb_ℤ, pos}

-- The lifetimes and tolerances of lifetimes.go, in nanoseconds
abbrev pub second : ℕ
second = 1000000000

abbrev pub access_token_lifetime : Duration
access_token_lifetime = pos (600 * second)

abbrev pub refresh_token_lifetime : Duration
refresh_token_lifetime = pos (1209600 * second)

abbrev pub deferred_token_lifetime : Duration
deferred_token_lifetime = pos (900 * second)

abbrev pub one_time_token_lifetime : Duration
one_time_token_lifetime = pos (120 * second)

abbrev pub default_refresh_skew : Duration
default_refresh_skew = pos (30 * second)

abbrev pub default_clock_skew : Duration
default_clock_skew = pos (60 * second)

pub record AccessToken : Type 0 where
  pub value : String
  pub resource : String
  pub scopes : List String
  pub issued_at : Instant
  pub expires_at : Instant

-- AccessToken{}
abbrev pub zero_token : AccessToken
zero_token = record {
  value = "";
  resource = "";
  scopes = [];
  issued_at = zero_time;
  expires_at = zero_time;
}

-- AccessToken.Expired
unfoldable pub expired : AccessToken → Instant → Duration → Bool
expired t now skew = not (before (add now skew) t.expires_at)

-- AccessToken.TTL
unfoldable pub ttl : AccessToken → Instant → Duration
ttl t now =
    let remaining = sub t.expires_at now in if ltb_ℤ remaining (pos 0) then pos 0 else remaining

pub record Session : Type 0 where
  pub subject : String
  pub access : AccessToken
  pub refresh_token : String
  pub refresh_expires_at : Instant

pub record Resource : Type 0 where
  pub name : String
  pub indicator : String
  pub scopes : List String

pub record ResourceTokenRequest : Type 0 where
  pub subject : String
  pub refresh_token : String
  pub resource : Resource

pub record ClientCredentialsRequest : Type 0 where
  pub resource : Resource

pub record OneTimeTokenRequest : Type 0 where
  pub subject : String
  pub email : Option String

pub record OneTimeToken : Type 0 where
  pub value : String
  pub expires_at : Instant

-- The Provider seam
pub record Provider (W : Type 0) : Type 0 where
  pub resource_token : ResourceTokenRequest → Eff W AccessToken
  pub refresh : String → Eff W Session
  pub client_credentials : ClientCredentialsRequest → Eff W AccessToken
  pub mint_one_time_token : OneTimeTokenRequest → Eff W OneTimeToken
  pub set_claim : String → String → Value → Eff W (Unit {0})

-- The TokenSource seam of cache.go
pub record TokenSource (W : Type 0) : Type 0 where
  pub mint : Resource → Eff W AccessToken

module _ {W : Type 0} where
  -- SessionSource and its Mint (source.go): bound to one session by value
  unfoldable pub session_source : Provider W → Session → TokenSource W
  session_source provider session = record {
    mint = λ resource. provider.resource_token (record {
      subject = session.subject;
      refresh_token = session.refresh_token;
      resource = resource;
    });
  }

  -- ClientCredentialsSource and its Mint (source.go)
  unfoldable pub client_credentials_source : Provider W → TokenSource W
  client_credentials_source provider = record {
    mint = λ resource. provider.client_credentials (record { resource = resource });
  }
