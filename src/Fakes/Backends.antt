-- ===== src/Fakes/Backends.antt =====
-- testhelper/backend.go and ping.go: the fakes behind the seams of an onboarding round.
pub mod Settled
use diene_go_auth_engine.Prelude.{
  String, Option, none, some, List, [], ◌∷◌, ◌++◌, Bool, true, false, not, arith,
}
use diene_go_auth_engine.Prelude.Int.{ℤ, pos, ◌*ℤ◌}
use diene_go_auth_engine.Token.{AccessToken}
use diene_go_auth_engine.Effect.{Eff}
use diene_go_auth_engine.Problems.{Error, err, ok, plain}
use diene_go_auth_engine.Principal.{Principal}
use diene_go_auth_engine.Onboard.{Backend, Registration, TokenRefresher}
use diene_go_auth_engine.Landscape.{Landscape, Pinger}
use diene_go_auth_engine.Value.{Assoc, insert, lookup}
use diene_go_auth_engine.Time.{Duration, wrap64}
use diene_go_auth_engine.Memory.{shift}
use diene_go_auth_engine.Fakes.{unless}
use diene_go_auth_engine.Cache.{token}

pub record FakeBackend : Type 0 where
  pub name : String
  pub exists : Bool
  pub unconfigured : Bool
  pub exists_errors : List Error
  pub create_errors : List Error
  pub configured_errors : List Error
  pub registrations : List Registration
  pub tokens : List AccessToken

pub record FakeBackendOptions : Type 0 where
  pub name : String
  pub exists : Bool
  pub needs_configuration : Bool

-- NewFakeBackend
unfoldable pub new_fake_backend : FakeBackendOptions → FakeBackend
new_fake_backend options = record {
  name = options.name;
  exists = options.exists;
  unconfigured = options.needs_configuration;
  exists_errors = [];
  create_errors = [];
  configured_errors = [];
  registrations = [];
  tokens = [];
}

-- EnqueueExistsError, EnqueueCreateError and EnqueueConfiguredError
unfoldable pub enqueue_exists_error : Error → FakeBackend → FakeBackend
enqueue_exists_error e b = record b { exists_errors = b.exists_errors ++ (e ∷ []) }

unfoldable pub enqueue_create_error : Error → FakeBackend → FakeBackend
enqueue_create_error e b = record b { create_errors = b.create_errors ++ (e ∷ []) }

unfoldable pub enqueue_configured_error : Error → FakeBackend → FakeBackend
enqueue_configured_error e b = record b { configured_errors = b.configured_errors ++ (e ∷ []) }

-- FakeBackend.Exists
unfoldable pub fake_exists : AccessToken → Eff FakeBackend Bool
unfolding shift
fake_exists token b = (
  unless (shift b.exists_errors).0 b.exists,
  record b { tokens = b.tokens ++ (token ∷ []); exists_errors = (shift b.exists_errors).1 },
)

-- The row of FakeBackend.Create, unless an error was taken from the queue
unfoldable pub fake_row : Option Error → Registration → Eff FakeBackend (Unit {0})
fake_row (some e) registration b = (err e, b)
fake_row none registration b =
    (ok tt, record b { registrations = b.registrations ++ (registration ∷ []); exists = true })

-- FakeBackend.Create
unfoldable pub fake_create : AccessToken → Registration → Eff FakeBackend (Unit {0})
unfolding shift fake_row
fake_create token registration b =
    fake_row (shift b.create_errors).0 registration
      (record b { tokens = b.tokens ++ (token ∷ []); create_errors = (shift b.create_errors).1 })

-- FakeBackend.Configured
unfoldable pub fake_configured : AccessToken → Eff FakeBackend Bool
unfolding shift
fake_configured token b = (
  unless (shift b.configured_errors).0 (not b.unconfigured),
  record b { tokens = b.tokens ++ (token ∷ []); configured_errors = (shift b.configured_errors).1 },
)

-- A FakeBackend of a name behind the backend seam, in its own state
abbrev pub fake_backend : String → Backend FakeBackend
fake_backend name = record {
  name = name;
  exists = fake_exists;
  create = fake_create;
  configured = some fake_configured;
}

pub record FakeRefresher : Type 0 where
  pub principal : Principal
  pub queued : List Principal
  pub errors : List Error
  pub calls : List String

-- NewFakeRefresher
abbrev pub new_fake_refresher : Principal → FakeRefresher
new_fake_refresher principal = record {
  principal = principal;
  queued = [];
  errors = [];
  calls = [];
}

-- FakeRefresher.Enqueue and FakeRefresher.EnqueueError
unfoldable pub enqueue_principal : Principal → FakeRefresher → FakeRefresher
enqueue_principal p r = record r { queued = r.queued ++ (p ∷ []) }

unfoldable pub enqueue_refresher_error : Error → FakeRefresher → FakeRefresher
enqueue_refresher_error e r = record r { errors = r.errors ++ (e ∷ []) }

-- The principal of FakeRefresher.Refresh, unless an error was taken from the queue
unfoldable pub next_principal : Option Error → List Principal → Eff FakeRefresher Principal
next_principal (some e) queued r = (err e, r)
next_principal none [] r = (ok r.principal, r)
next_principal none (p ∷ queued) r = (ok p, record r { queued = queued })

-- FakeRefresher.Refresh
unfoldable pub fake_refreshed : String → Eff FakeRefresher Principal
unfolding shift next_principal
fake_refreshed subject r =
    next_principal (shift r.errors).0 r.queued
      (record r { calls = r.calls ++ (subject ∷ []); errors = (shift r.errors).1 })

-- FakeRefresher behind the refresher seam
abbrev pub fake_refresher : TokenRefresher FakeRefresher
fake_refresher = record { refresh = fake_refreshed }

pub record FakePinger : Type 0 where
  pub latencies : Assoc ℤ
  pub errors : Assoc Error
  pub calls : List String

-- NewFakePinger
abbrev pub new_fake_pinger : FakePinger
new_fake_pinger = record { latencies = []; errors = []; calls = [] }

-- FakePinger.SetLatency and FakePinger.SetError
unfoldable pub set_latency : String → ℤ → FakePinger → FakePinger
unfolding insert
set_latency landscape milliseconds p = record p {
  latencies = insert landscape milliseconds p.latencies;
}

unfoldable pub set_error : String → Error → FakePinger → FakePinger
unfolding insert
set_error landscape e p = record p { errors = insert landscape e p.errors }

abbrev pub err_landscape_unreachable : Error
err_landscape_unreachable = plain "fake pinger cannot reach landscape"

-- time.Duration(milliseconds) * time.Millisecond
unfoldable pub of_milliseconds : ℤ → Duration
unfolding wrap64 ◌*ℤ◌
of_milliseconds milliseconds = wrap64 (milliseconds *ℤ pos 1000000)

-- FakePinger.Ping; the error of a landscape is one that is not nil.
unfoldable pub fake_ping : Landscape → Eff FakePinger Duration
unfolding lookup of_milliseconds
fake_ping landscape p = (
  elim (lookup landscape.name p.errors) [
    | some e ↦ err e
    | none ↦ elim (lookup landscape.name p.latencies) [
      | none ↦ err err_landscape_unreachable
      | some milliseconds ↦ ok (of_milliseconds milliseconds)
    ]
  ],
  record p { calls = p.calls ++ (landscape.name ∷ []) },
)

-- FakePinger behind the pinger seam
abbrev pub fake_pinger : Pinger FakePinger
fake_pinger = record { ping = fake_ping }
