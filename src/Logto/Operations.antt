-- ===== src/Logto/Operations.antt =====
-- The operations of the client of lib/logto/client.go, each a round trip of `send`.
use Prim.Native.String
use diene_go_auth_engine.Prelude.{String, none, some, [], ◌∷◌, ◌||◌, not, ◌==◌, if◌then◌else◌}
use diene_go_auth_engine.Value.{Assoc, Value, insert, text, field, no_fields, object}
use diene_go_auth_engine.Effect.{Eff, lift, map_err, ◌>>=◌, ◌>>◌, fail, pure, refuse_if}
use diene_go_auth_engine.Time.{add}
use diene_go_auth_engine.Problems.{
  Result, config_invalid, ok, provider_unavailable, raise, raise_from, refresh_token_unknown,
  token_claim_missing,
}
use diene_go_auth_engine.Token.{
  Resource, AccessToken, ClientCredentialsRequest, OneTimeToken, OneTimeTokenRequest, Provider,
  ResourceTokenRequest, Session, one_time_token_lifetime,
}
use diene_go_auth_engine.Claims.{claim_subject}
use diene_go_auth_engine.Logto.{
  Client, HttpRequest, TokenResponse, Wire, client_now, custom_data_path, granted_token,
  one_time_body, refreshed_session, resource_form, send, trim_slash,
}
use diene_go_auth_engine.Cache.{token}

module _ {W : Type 0} (wire : Wire) where
  -- The request of Client.token
  unfoldable pub token_request : Client W → Assoc String → HttpRequest
  token_request c form =
      let minting = c.config.minting in
      record {
        method = "POST";
        url = minting.token_endpoint;
        body = wire.encode_form (insert "client_id" minting.client_id form);
        headers = ("Content-Type", "application/x-www-form-urlencoded") ∷ [];
        basic_auth =
            if not (minting.client_secret == "")
            then some (minting.client_id, minting.client_secret)
            else none;
      }

  -- Client.token
  unfoldable pub client_token : Client W → Assoc String → Eff W TokenResponse
  unfolding token_request send
  client_token c form = do
    lift (
        map_err
          (λ e.
            raise_from c.problems config_invalid e
              "the configured token endpoint is not a usable URL"
              (("endpoint", text c.config.minting.token_endpoint) ∷ []))
          (wire.check_request "POST" c.config.minting.token_endpoint))
    granted ← send wire c (token_request c form) wire.unmarshal_token
    refuse_if (granted.access_token == "")
        (raise c.problems provider_unavailable "the identity provider returned no access token" [])
    pure granted

  -- Client.accessToken
  unfoldable pub access_token_of : Client W → TokenResponse → Resource → Eff W AccessToken
  unfolding client_now
  access_token_of c granted resource = do
    now ← client_now c
    pure (granted_token granted resource now)

  -- A grant for a resource, and its token
  unfoldable pub grant_resource : Client W → Assoc String → Resource → Eff W AccessToken
  unfolding client_token access_token_of
  grant_resource c form resource = do
    granted ← client_token c form
    access_token_of c granted resource

  -- Client.ResourceToken
  unfoldable pub client_resource_token : Client W → ResourceTokenRequest → Eff W AccessToken
  unfolding resource_form grant_resource
  client_resource_token c request = do
    refuse_if (request.refresh_token == "")
        (raise c.problems refresh_token_unknown "a blank refresh token cannot be exchanged" [])
    grant_resource c
        (resource_form "refresh_token" request.resource
          (insert "refresh_token" request.refresh_token (insert "grant_type" "refresh_token" [])))
        request.resource

  -- Client.ClientCredentials
  unfoldable pub client_client_credentials : Client W → ClientCredentialsRequest → Eff W AccessToken
  unfolding resource_form grant_resource
  client_client_credentials c request =
      grant_resource c
        (resource_form "client_credentials" request.resource
          (insert "grant_type" "client_credentials" []))
        request.resource

  -- Client.Refresh
  unfoldable pub client_refresh : Client W → String → Eff W Session
  unfolding client_token access_token_of
  client_refresh c presented = do
    refuse_if (presented == "")
        (raise c.problems refresh_token_unknown "a blank refresh token cannot be rotated" [])
    granted ←
        client_token c (insert "refresh_token" presented (insert "grant_type" "refresh_token" []))
    access ← access_token_of c granted (record { name = ""; indicator = ""; scopes = [] })
    pure (refreshed_session presented granted access)

  -- The request of Client.management
  unfoldable pub management_request : Client W → String → String → String → String → HttpRequest
  unfolding trim_slash
  management_request c method path encoded bearer = record {
    method = method;
    url = String.◌++◌ (trim_slash c.config.idp.management.endpoint) path;
    body = encoded;
    headers =
        ("Content-Type", "application/json") ∷ ("Authorization", String.◌++◌ "Bearer " bearer) ∷ [];
    basic_auth = none;
  }

  -- Client.management
  unfoldable pub management :
      {A : Type 0} → Client W → String → String → Value → (String → Result A) → Eff W A
  unfolding management_request client_client_credentials send
  management c method path body decode = do
    refuse_if (c.config.idp.management.endpoint == "") (
        raise c.problems config_invalid "a management endpoint is required to write claims back" [])
    encoded ← lift (
        map_err
          (λ e.
            raise_from c.problems provider_unavailable e
              "the management request body could not be encoded" [])
          (wire.marshal body))
    token ← client_client_credentials c (record {
      resource = record {
        name = "management";
        indicator = c.config.idp.management.resource;
        scopes = [];
      };
    })
    lift (
        map_err
          (λ e.
            raise_from c.problems config_invalid e
              "the configured management endpoint is not a usable URL"
              (("endpoint", text c.config.idp.management.endpoint) ∷ []))
          (wire.check_request method (management_request c method path encoded token.value).url))
    send wire c (management_request c method path encoded token.value) decode

  -- Client.MintOneTimeToken
  unfoldable pub client_mint_one_time_token : Client W → OneTimeTokenRequest → Eff W OneTimeToken
  unfolding client_now management one_time_body
  client_mint_one_time_token c request = do
    refuse_if (request.subject == "") (
        raise c.problems token_claim_missing "a one-time token must be minted for a known subject"
          (("claim", text claim_subject) ∷ []))
    now ← client_now c
    minted ←
        management c "POST" "/api/one-time-tokens" (one_time_body request)
          wire.unmarshal_one_time_token
    refuse_if (minted.token == "") (
        raise c.problems provider_unavailable "the identity provider returned no one-time token" [])
    pure (record { value = minted.token; expires_at = add now one_time_token_lifetime })

  -- Client.SetClaim
  unfoldable pub client_set_claim : Client W → String → String → Value → Eff W (Unit {0})
  unfolding management custom_data_path
  client_set_claim c subject name value =
      if subject == "" || name == ""
      then fail (
          raise c.problems token_claim_missing
            "a claim write-back needs both a subject and a claim name"
            (("subject", text subject) ∷ ("claim", text name) ∷ []))
      else management c "PATCH" (custom_data_path wire subject)
          (object (field "customData" (object (field name value no_fields)) no_fields))
          (λ payload. ok tt)

  -- Client as the engine's Provider
  abbrev pub logto_provider : Client W → Provider W
  logto_provider c = record {
    resource_token = client_resource_token c;
    refresh = client_refresh c;
    client_credentials = client_client_credentials c;
    mint_one_time_token = client_mint_one_time_token c;
    set_claim = client_set_claim c;
  }
