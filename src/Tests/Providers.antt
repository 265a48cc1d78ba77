-- ===== src/Tests/Providers.antt =====
-- Providers: the client over a wire that always answers, the published keys, and the fake provider.
use diene_go_auth_engine.Prelude.{
  String, none, some, [], ◌∷◌, false, ◌==◌, if◌then◌else◌, ◌≡◌, ◌≢◌, ◌⊎◌, ◌↔◌, refl, arith,
}
use diene_go_auth_engine.Prelude.Int.{pos, ◌<ℤ◌, ◌+ℤ◌}
use diene_go_auth_engine.Value.{Assoc, Value, text, int, insert, lookup}
use diene_go_auth_engine.Problems.{
  Error, err, ok, raise, raise_from, ownership_denied, provider_unavailable,
  token_signature_invalid,
}
use diene_go_auth_engine.Logto.{
  Client, HttpRequest, HttpResponse, TokenResponse, Wire, send, client_now, decode_payload,
  granted_token, refreshed_session, resource_form,
}
use diene_go_auth_engine.Logto.Operations.{
  client_refresh, client_resource_token, client_token, access_token_of, grant_resource,
}
use diene_go_auth_engine.Logto.Transport.{send_decides, IsSuccess}
use diene_go_auth_engine.Logto.Grants.{resource_token_lives, refresh_never_drops}
use diene_go_auth_engine.Jwks.{RemoteJwks}
use diene_go_auth_engine.Jwks.Keys.{keyfunc_never_guesses, validator_over}
use diene_go_auth_engine.Validator.{Validator, keyfunc, default_algorithms}
use diene_go_auth_engine.Fakes.{
  FakeProvider, fake_resource_token, new_fake_provider, fake_grant, fake_token,
}
use diene_go_auth_engine.Fakes.Fresh.{fake_mints_fresh}
use diene_go_auth_engine.Token.{
  AccessToken, ResourceTokenRequest, Session, refresh_token_lifetime, default_clock_skew,
}
use diene_go_auth_engine.Tests.Fixtures.{problems, still, zinc}
use diene_go_auth_engine.Principal.{new_claim_mapper}
use diene_go_auth_engine.Claims.{claim}
use diene_go_auth_engine.Text.Decimal.{itoa}
use diene_go_auth_engine.Memory.{shift}
use diene_go_auth_engine.Text.{trim_space, join_spaces}

abbrev grant : TokenResponse
grant = record {
  access_token = "at-1";
  refresh_token = "";
  token_type = "Bearer";
  expires_in = pos 600;
  scope = "";
}

abbrev wire : Wire
wire = record {
  encode_form = λ form. "form";
  path_escape = λ s. s;
  url_text = λ s. s;
  check_request = λ method url. ok tt;
  marshal = λ v. ok "json";
  unmarshal_token = λ s. ok grant;
  unmarshal_one_time_token = λ s. ok (record { token = "ott" });
}

abbrev client : Client (Unit {0})
client = record {
  config = record {
    idp = record {
      issuer = "https://idp";
      audience = "api";
      jwks_uri = "https://idp/jwks";
      algorithms = [];
      clock_skew_seconds = pos 60;
      management = record {
        endpoint = "https://m";
        resource = "m";
        client_id = "id";
        client_secret = "s";
      };
    };
    resources = [];
    policies = [];
    minting = record {
      token_endpoint = "https://idp/token";
      client_id = "id";
      client_secret = "s";
      cache_namespace = "";
      refresh_skew_seconds = pos 30;
      concurrency = pos 4;
      handoff_path = "";
    };
  };
  http = record { round_trip = λ request w. (ok (record { status = 200; body = ok "{}" }), w) };
  problems = problems;
  clock = still;
}

abbrev asked : ResourceTokenRequest
asked = record { subject = "alice"; refresh_token = "rt-1"; resource = zinc }

abbrev named_key : Assoc Value
named_key = ("kid", text "k1") ∷ []

abbrev jwks : RemoteJwks (Unit {0}) String
jwks = record {
  storage = record { key_read = λ id w. (ok (if id == "k1" then some "key" else none), w) };
  problems = problems;
}

abbrev fake : FakeProvider
fake = new_fake_provider (record { instant = pos 0; no_rotation = false })

abbrev request : HttpRequest
request = record {
  method = "POST";
  url = "https://idp/token";
  body = "form";
  headers = [];
  basic_auth = none;
}

send_decides_example :
    ((e : Error) × ((client.http.round_trip request tt).0 ≡ err e)
      × (send wire client request wire.unmarshal_token tt ≡ (
        err (
            raise_from problems provider_unavailable e "the identity provider could not be reached"
              (("url", text (wire.url_text request.url)) ∷ [])),
        (client.http.round_trip request tt).1,
      )))
    ⊎ ((r : HttpResponse) × (e : Error) × ((client.http.round_trip request tt).0 ≡ ok r)
        × (r.body ≡ err e)
        × (send wire client request wire.unmarshal_token tt ≡ (
          err (
              raise_from problems provider_unavailable e
                "the identity provider response could not be read" []),
          (client.http.round_trip request tt).1,
        )))
    ⊎ ((r : HttpResponse) × (payload id : String) × ((client.http.round_trip request tt).0 ≡ ok r)
        × (r.body ≡ ok payload)
        × (¬ IsSuccess r.status)
        × ((r.status ≡ 401) × (id ≡ token_signature_invalid)
            ⊎ (r.status ≡ 403) × (id ≡ ownership_denied)
            ⊎ (r.status ≢ 401) × (r.status ≢ 403) × (id ≡ provider_unavailable))
        × (send wire client request wire.unmarshal_token tt ≡ (
          err (
              raise problems id "the identity provider rejected the request"
                (("status", int (pos r.status)) ∷ ("body", text (trim_space payload)) ∷ [])),
          (client.http.round_trip request tt).1,
        )))
    ⊎ ((r : HttpResponse) × (payload : String) × (e : Error) × ((client.http.round_trip request
            tt).0
          ≡ ok r)
        × (r.body ≡ ok payload)
        × IsSuccess r.status
        × (wire.unmarshal_token payload ≡ err e)
        × (send wire client request wire.unmarshal_token tt ≡ (
          err (
              raise_from problems provider_unavailable e
                "the identity provider response was not the expected document"
                (("status", text (itoa r.status)) ∷ [])),
          (client.http.round_trip request tt).1,
        )))
    ⊎ ((r : HttpResponse) × (payload : String) × (a : TokenResponse) × ((client.http.round_trip
            request tt).0
          ≡ ok r)
        × (r.body ≡ ok payload)
        × IsSuccess r.status
        × (wire.unmarshal_token payload ≡ ok a)
        × (send wire client request wire.unmarshal_token tt
            ≡ (ok a, (client.http.round_trip request tt).1)))
send_decides_example = send_decides wire client request wire.unmarshal_token tt

abbrev bearer : AccessToken
bearer = granted_token grant zinc (pos 1000)

granted : (client_resource_token wire client asked tt).0 ≡ ok bearer
unfolding client_resource_token grant_resource access_token_of client_now client_token send
    decode_payload granted_token resource_form insert
granted = refl

resource_token_lives_example :
    (asked.refresh_token ≢ "")
    × (bearer.value ≢ "")
    × (bearer.resource ≡ "zinc")
    × ((form : Assoc String) × (g : TokenResponse) × (lookup "grant_type" form
          ≡ some "refresh_token")
        × (lookup "refresh_token" form ≡ some "rt-1")
        × (lookup "resource" form ≡ some asked.resource.indicator)
        × ((asked.resource.scopes ≡ []) × (lookup "scope" form ≡ none)
            ⊎ (asked.resource.scopes ≢ [])
              × (lookup "scope" form ≡ some (join_spaces asked.resource.scopes)))
        × ((client_token wire client form tt).0 ≡ ok g)
        × (bearer.value ≡ g.access_token)
        × ((client.clock.now_utc (client_token wire client form tt).1).0 ≡ ok bearer.issued_at)
        × ((bearer.issued_at <ℤ bearer.expires_at) ⊎ (pos 9223372036 <ℤ g.expires_in)))
unfolding granted_token
resource_token_lives_example = resource_token_lives wire client asked tt bearer granted

abbrev session : Session
session =
    refreshed_session "rt-1" grant
      (granted_token grant (record { name = ""; indicator = ""; scopes = [] }) (pos 1000))

refreshed : (client_refresh wire client "rt-1" tt).0 ≡ ok session
unfolding client_refresh access_token_of client_now client_token send decode_payload granted_token
    insert refreshed_session
refreshed = refl

refresh_never_drops_example :
    (session.refresh_token ≢ "")
    × (session.access.value ≢ "")
    × (session.refresh_expires_at ≡ session.access.issued_at +ℤ refresh_token_lifetime)
    × ((form : Assoc String) × (g : TokenResponse) × ((client_token wire client form tt).0 ≡ ok g)
        × ((g.refresh_token ≡ "") × (session.refresh_token ≡ "rt-1")
            ⊎ (g.refresh_token ≢ "") × (session.refresh_token ≡ g.refresh_token)))
refresh_never_drops_example = refresh_never_drops wire client "rt-1" tt session refreshed

abbrev validator : Validator (Unit {0}) String
validator = record {
  issuer = "https://idp";
  audience = "api";
  keys = record { key = λ id w. (ok "other", w) };
  problems = problems;
  clock = still;
  mapper = new_claim_mapper;
  leeway = default_clock_skew;
  algorithms = default_algorithms;
}

keyfunc_never_guesses_example :
    ((keyfunc (validator_over jwks validator) named_key tt).0 ≡ ok "key") ↔ (
      (key_id : String) × (claim named_key "kid" ≡ text key_id)
      × (key_id ≢ "")
      × ((jwks.storage.key_read key_id tt).0 ≡ ok (some "key")))
keyfunc_never_guesses_example = keyfunc_never_guesses jwks validator named_key tt "key"

abbrev after : FakeProvider
after = (fake_resource_token asked fake).1

abbrev first : AccessToken
first = fake_token fake zinc 1

abbrev second : AccessToken
second = fake_token after zinc 2

first_minted : (fake_resource_token asked fake).0 ≡ ok first
unfolding fake_resource_token fake_grant shift fake_token new_fake_provider
first_minted = refl

second_minted : (fake_resource_token asked after).0 ≡ ok second
unfolding fake_resource_token fake_grant shift fake_token new_fake_provider
second_minted = refl

fake_mints_fresh_example : first.value ≢ second.value
unfolding fake_resource_token
fake_mints_fresh_example =
    fake_mints_fresh asked asked fake after first second first_minted (omega arith) second_minted
