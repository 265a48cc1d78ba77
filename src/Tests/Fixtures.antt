-- ===== src/Tests/Fixtures.antt =====
-- Test data: what stands in for the seams and the libraries behind them.
use diene_go_auth_engine.Prelude.{none, some, [], ◌∷◌, false}
use diene_go_auth_engine.Token.{AccessToken, OneTimeToken, Provider, Resource, Session}
use diene_go_auth_engine.Effect.{Clock}
use diene_go_auth_engine.Principal.{Principal}
use diene_go_auth_engine.Problems.{Problems, Registry, auth_problem, ok}
use diene_go_auth_engine.Prelude.Int.{pos}

abbrev pub registry : Registry
registry = record {
  lookup = λ id. some (auth_problem id id 401 false);
  type_uri_for = λ declared. ok declared.id;
  from_object = λ status version. record {
    type_uri = "fallback";
    title = "Internal";
    status = status;
    detail = none;
    recoverable = false;
    payload = [];
  };
}

abbrev pub problems : Problems
problems = record { registry = registry }

-- A clock that stands still
abbrev pub still : {W : Type 0} → Clock W
still = record { now_utc = λ w. (ok (pos 1000), w) }

abbrev pub alice : Principal
alice = record {
  subject = "alice";
  issuer = "https://idp";
  audience = [];
  username = some "al";
  email = none;
  email_verified = false;
  roles = "admin" ∷ [];
  scopes = [];
  home_landscape = none;
  expires_at = pos 5000;
  claims = [];
}

abbrev pub zinc : Resource
zinc = record { name = "zinc"; indicator = "https://zinc"; scopes = [] }

abbrev pub minted : AccessToken
minted = record {
  value = "at-1";
  resource = "zinc";
  scopes = [];
  issued_at = pos 1000;
  expires_at = pos 90000000000;
}

abbrev pub session : Session
session = record {
  subject = "alice";
  access = minted;
  refresh_token = "rt-2";
  refresh_expires_at = pos 0;
}

abbrev pub one_time : OneTimeToken
one_time = record { value = "ott-1"; expires_at = pos 2000 }

-- A provider that always answers, and changes nothing
abbrev pub provider : {W : Type 0} → Provider W
provider = record {
  resource_token = λ request w. (ok minted, w);
  refresh = λ refresh_token w. (ok session, w);
  client_credentials = λ request w. (ok minted, w);
  mint_one_time_token = λ request w. (ok one_time, w);
  set_claim = λ subject name value w. (ok tt, w);
}
