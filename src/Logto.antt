-- ===== src/Logto.antt =====
-- lib/logto/client.go: the identity provider behind the provider seam, over HTTP. Form and JSON
-- codecs, the checks that net/http makes on a request's URL, and path escaping are parameters.
pub mod Operations
pub mod Transport
pub mod Grants
use Prim.Native.Char.{code}
use Prim.Native.String
use diene_go_auth_engine.Prelude.{
  String, Option, none, some, List, [], ◌∷◌, Bool, ◌||◌, not, ◌==◌, if◌then◌else◌, nat_eq, ltb, leb,
  ℕ, ◌*◌, arith, ◌&&◌,
}
use diene_go_auth_engine.Value.{Assoc, Value, insert, int, text, field, no_fields, object}
use diene_go_auth_engine.Effect.{
  Clock, Eff, lift, map_err, on_err, ◌>>=◌, ◌>>◌, fail, pure, refuse_if,
}
use diene_go_auth_engine.Config.{Config}
use diene_go_auth_engine.Time.{Instant, Duration, add, of_seconds}
use diene_go_auth_engine.Problems.{
  Problems, Result, config_invalid, err, ok, ownership_denied, plain, provider_unavailable, raise,
  raise_from, token_signature_invalid, refresh_token_unknown, token_claim_missing,
}
use diene_go_auth_engine.Token.{
  Resource, AccessToken, ClientCredentialsRequest, OneTimeToken, OneTimeTokenRequest, Provider,
  ResourceTokenRequest, Session, access_token_lifetime, one_time_token_lifetime,
  refresh_token_lifetime,
}
use diene_go_auth_engine.Text.{is_empty, join_spaces, trim_space, fields}
use diene_go_auth_engine.Text.Decimal.{itoa}
use diene_go_auth_engine.Principal.{or_zero}
use diene_go_auth_engine.Prelude.Int.{pos, ℤ, ltb_ℤ}
use diene_go_auth_engine.Claims.{claim_subject}
use diene_go_auth_engine.Flight.{minting}

-- The part of http.Request that the client sets
pub record HttpRequest : Type 0 where
  pub method : String
  pub url : String
  pub body : String
  pub headers : Assoc String
  pub basic_auth : Option (String × String)

-- The status of an http.Response, and what io.ReadAll makes of its body
pub record HttpResponse : Type 0 where
  pub status : ℕ
  pub body : Result String

-- The Doer seam
pub record Doer (W : Type 0) : Type 0 where
  pub round_trip : HttpRequest → Eff W HttpResponse

pub record TokenResponse : Type 0 where
  pub access_token : String
  pub refresh_token : String
  pub token_type : String
  pub expires_in : ℤ
  pub scope : String

pub record OneTimeTokenResponse : Type 0 where
  pub token : String

-- url.Values.Encode, url.PathEscape, URL.String, http.NewRequestWithContext (which refuses an
-- unusable method or URL), json.Marshal and json.Unmarshal
pub record Wire : Type 0 where
  pub encode_form : Assoc String → String
  pub path_escape : String → String
  pub url_text : String → String
  pub check_request : String → String → Result (Unit {0})
  pub marshal : Value → Result String
  pub unmarshal_token : String → Result TokenResponse
  pub unmarshal_one_time_token : String → Result OneTimeTokenResponse

pub record ClientOptions (W : Type 0) : Type 0 where
  pub config : Config
  pub http : Option (Doer W)
  pub problems : Option Problems
  pub clock : Option (Clock W)

pub record Client (W : Type 0) : Type 0 where
  pub config : Config
  pub http : Doer W
  pub problems : Problems
  pub clock : Clock W

-- `classifyStatus`
unfoldable pub classify_status : ℕ → String
classify_status status =
    if nat_eq status 401
    then token_signature_invalid
    else if nat_eq status 403
    then ownership_denied
    else provider_unavailable

-- strings.TrimSuffix at "/"
unfoldable pub trim_slash : String → String
trim_slash String.[] = String.[]
trim_slash (String.◌∷◌ c s) =
    let rest = trim_slash s in
    if is_empty s && nat_eq (code c) b'/' then String.[] else String.◌∷◌ c rest

-- A form with the fields of a grant for a resource
unfoldable pub resource_form : String → Resource → Assoc String → Assoc String
resource_form grant resource form =
    let asked = insert "resource" resource.indicator form in
    elim resource.scopes [ [] ↦ asked | s ∷ ss ↦ insert "scope" (join_spaces (s ∷ ss)) asked ]

-- The lifetime that Client.accessToken gives a grant
unfoldable pub grant_lifetime : TokenResponse → Duration
grant_lifetime granted =
    if ltb_ℤ (pos 0) granted.expires_in
    then of_seconds granted.expires_in
    else access_token_lifetime

-- The token that Client.accessToken makes of a grant at an instant
unfoldable pub granted_token : TokenResponse → Resource → Instant → AccessToken
unfolding grant_lifetime
granted_token granted resource now = record {
  value = granted.access_token;
  resource = resource.name;
  scopes = if not (granted.scope == "") then fields granted.scope else resource.scopes;
  issued_at = now;
  expires_at = add now (grant_lifetime granted);
}

-- The session that Client.Refresh makes of a grant and its access token
unfoldable pub refreshed_session : String → TokenResponse → AccessToken → Session
refreshed_session presented granted access = record {
  subject = "";
  access = access;
  refresh_token = if granted.refresh_token == "" then presented else granted.refresh_token;
  refresh_expires_at = add access.issued_at refresh_token_lifetime;
}

-- The body of Client.MintOneTimeToken
unfoldable pub one_time_body : OneTimeTokenRequest → Value
one_time_body request = object (
    field "userId" (text request.subject) (
      field "expiresIn" (int (pos 120)) (elim request.email [
        | none ↦ no_fields
        | some email ↦ field "email" (text email) no_fields
      ])))

-- The path of Client.SetClaim
unfoldable pub custom_data_path : Wire → String → String
custom_data_path wire subject =
    String.◌++◌ "/api/users/" (String.◌++◌ (wire.path_escape subject) "/custom-data")

module _ {W : Type 0} where
  -- NewClient; the default transport of net/http is a parameter.
  unfoldable pub new_client : Doer W → ClientOptions W → Result (Client W)
  new_client default_client options = elim options.problems [
    | none ↦ err (plain "auth-engine logto client requires a problem factory")
    | some p ↦ elim options.clock [
      | none ↦
          err
            (raise p config_invalid "a clock seam is required so token expiry stays injectable" [])
      | some clock ↦
          if options.config.minting.token_endpoint == ""
          then err (raise p config_invalid "a token endpoint is required to mint tokens" [])
          else ok (record {
            config = options.config;
            http = or_zero default_client options.http;
            problems = p;
            clock = clock;
          })
    ]
  ]

  -- Client.now
  unfoldable pub client_now : Client W → Eff W Instant
  client_now c =
      on_err
        (λ e.
          raise_from c.problems provider_unavailable e
            "the clock seam could not supply the current instant" [])
        c.clock.now_utc

  -- The end of Client.send: what the response's payload is taken for
  unfoldable pub decode_payload :
      {A : Type 0} → Client W → (String → Result A) → ℕ → String → Result A
  unfolding classify_status
  decode_payload c decode status payload =
      if ltb status 200 || leb 300 status
      then err (
          raise c.problems (classify_status status) "the identity provider rejected the request"
            (("status", int (pos status)) ∷ ("body", text (trim_space payload)) ∷ []))
      else map_err
          (λ e.
            raise_from c.problems provider_unavailable e
              "the identity provider response was not the expected document"
              (("status", text (itoa status)) ∷ []))
          (decode payload)

  -- Client.send; where `into` is nil, `decode` takes any payload.
  unfoldable pub send : {A : Type 0} → Wire → Client W → HttpRequest → (String → Result A) → Eff W A
  unfolding decode_payload
  send wire c request decode = do
    response ←
        on_err
          (λ e.
            raise_from c.problems provider_unavailable e
              "the identity provider could not be reached"
              (("url", text (wire.url_text request.url)) ∷ []))
          (c.http.round_trip request)
    payload ← lift (
        map_err
          (λ e.
            raise_from c.problems provider_unavailable e
              "the identity provider response could not be read" [])
          response.body)
    lift (decode_payload c decode response.status payload)
