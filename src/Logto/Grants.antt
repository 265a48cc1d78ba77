-- ===== src/Logto/Grants.antt =====
-- The tokens and sessions that the client of lib/logto/client.go makes of the provider's grants.
use diene_go_auth_engine.Prelude.{
  String, [], ◌∷◌, ◌≡◌, ◌≢◌, ◌⊎◌, inl, inr, refl, arith, eq_iff, Bool-cases, Option, if◌then◌else◌,
  ltb, ◌==◌, none, some, List,
}
use diene_go_auth_engine.Token.{
  AccessToken, Resource, ResourceTokenRequest, Session, access_token_lifetime,
  refresh_token_lifetime,
}
use diene_go_auth_engine.Value.{Assoc, Value, insert, text, lookup}
use diene_go_auth_engine.Logto.{
  Client, TokenResponse, Wire, client_now, granted_token, grant_lifetime, refreshed_session,
  resource_form, send,
}
use diene_go_auth_engine.Logto.Operations.{
  access_token_of, client_token, grant_resource, client_mint_one_time_token, client_refresh,
  client_resource_token, client_set_claim, token_request,
}
use diene_go_auth_engine.Time.{Instant, add, of_seconds}
use diene_go_auth_engine.Effect.{Result-cases}
use diene_go_auth_engine.Problems.{ok, err, raise, refresh_token_unknown, token_claim_missing}
use diene_go_auth_engine.Prelude.Int.{+ℤ_parts, ltb_ℤ, negsuc, pos, ℤ, ◌+ℤ◌, ◌<ℤ◌}
use diene_go_auth_engine.Claims.{claim_subject}
use diene_go_auth_engine.Config.Lifetimes.{of_seconds-exact}
use diene_go_auth_engine.Text.{join_spaces}

scopes-cases :
    (scopes : List String) → (scopes ≡ []) ⊎ ((s : String) × (ss : List String) × (scopes ≡ s ∷ ss))
scopes-cases [] = inl refl
scopes-cases (s ∷ ss) = inr (s, ss, refl)

-- What the form of a resource grant says
resource_form-fields :
    (presented : String) (r : Resource) (form : Assoc String)
    → form
      ≡ resource_form "refresh_token" r
          (insert "refresh_token" presented (insert "grant_type" "refresh_token" []))
    → (lookup "grant_type" form ≡ some "refresh_token")
      × (lookup "refresh_token" form ≡ some presented)
      × (lookup "resource" form ≡ some r.indicator)
      × ((r.scopes ≡ []) × (lookup "scope" form ≡ none)
          ⊎ (r.scopes ≢ []) × (lookup "scope" form ≡ some (join_spaces r.scopes)))
unfolding resource_form lookup insert
resource_form-fields presented r form is = elim (scopes-cases r.scopes) [
  | inl q ↦ ground (arith, is)
  | inr (s, ss, q) ↦ ground (arith, is)
]

module _ {W : Type 0} (wire : Wire) (c : Client W) where
  client_token-named :
      (form : Assoc String) (w : W) (g : TokenResponse)
      → (client_token wire c form w).0 ≡ ok g
      → g.access_token ≢ ""
  unfolding client_token
  client_token-named form w g h =
      let endpoint = c.config.minting.token_endpoint in
      elim (Result-cases (wire.check_request "POST" endpoint)) [
        | inr (e, q) ↦ absurd (ground arith)
        | inl (u, q) ↦
            elim (Result-cases (send wire c (token_request wire c form) wire.unmarshal_token w).0) [
              | inr (e, q') ↦ absurd (ground arith)
              | inl (g', q') ↦ ground (arith, eq_iff g'.access_token "", eq_iff g.access_token "")
            ]
      ]

  grant_resource-token :
      (form : Assoc String) (resource : Resource) (w : W) (t : AccessToken)
      → (grant_resource wire c form resource w).0 ≡ ok t
      → (g : TokenResponse) × (at : Instant) × ((client_token wire c form w).0 ≡ ok g)
        × ((c.clock.now_utc (client_token wire c form w).1).0 ≡ ok at)
        × (t ≡ granted_token g resource at)
  unfolding grant_resource access_token_of client_now
  grant_resource-token form resource w t h = elim (Result-cases (client_token wire c form w).0) [
    | inr (e, q) ↦ absurd (ground arith)
    | inl (g, q) ↦ elim (Result-cases (c.clock.now_utc (client_token wire c form w).1).0) [
      | inr (e, q') ↦ absurd (ground arith)
      | inl (at, q') ↦ (g, at, q, q', ground arith)
    ]
  ]

  -- The lifetime of a grant is positive, unless its number of seconds does not fit a duration.
  grant_lifetime-positive :
      (g : TokenResponse) → (pos 0 <ℤ grant_lifetime g) ⊎ (pos 9223372036 <ℤ g.expires_in)
  unfolding grant_lifetime
  grant_lifetime-positive g = go g.expires_in
    where
      go :
          (n : ℤ)
          → (pos 0 <ℤ (if ltb_ℤ (pos 0) n then of_seconds n else access_token_lifetime))
            ⊎ (pos 9223372036 <ℤ n)
      go (negsuc n) = inl (ground arith)
      go (pos n) = elim (Bool-cases (ltb 9223372036 n)) [
        | inl big ↦ inr (ground arith)
        | inr small ↦ inl (ground (arith, of_seconds-exact n))
      ]

  -- A token from Client.ResourceToken, which a blank refresh token does not get, is the access token,
  -- not blank, of a grant that the provider made on one form: a form of the grant type
  -- refresh_token, which carries the presented refresh token, the indicator of the requested resource
  -- and, where it has scopes, these joined by spaces. It is labelled with the name of the resource,
  -- is issued at the instant that the clock gave behind the call, and expires after that, unless
  -- this grant is of more seconds than a duration holds.
  pub resource_token_lives :
      (request : ResourceTokenRequest) (w : W) (t : AccessToken)
      → (client_resource_token wire c request w).0 ≡ ok t
      → (request.refresh_token ≢ "")
        × (t.value ≢ "")
        × (t.resource ≡ request.resource.name)
        × ((form : Assoc String) × (g : TokenResponse) × (lookup "grant_type" form
              ≡ some "refresh_token")
            × (lookup "refresh_token" form ≡ some request.refresh_token)
            × (lookup "resource" form ≡ some request.resource.indicator)
            × ((request.resource.scopes ≡ []) × (lookup "scope" form ≡ none)
                ⊎ (request.resource.scopes ≢ [])
                  × (lookup "scope" form ≡ some (join_spaces request.resource.scopes)))
            × ((client_token wire c form w).0 ≡ ok g)
            × (t.value ≡ g.access_token)
            × ((c.clock.now_utc (client_token wire c form w).1).0 ≡ ok t.issued_at)
            × ((t.issued_at <ℤ t.expires_at) ⊎ (pos 9223372036 <ℤ g.expires_in)))
  unfolding client_resource_token granted_token
  resource_token_lives request w t h = elim (Bool-cases (request.refresh_token == "")) [
    | inl blank ↦ absurd (ground arith)
    | inr named ↦
        let form =
          resource_form "refresh_token" request.resource (
            insert "refresh_token" request.refresh_token
              (insert "grant_type" "refresh_token" [])) in
        let fields = resource_form-fields request.refresh_token request.resource form refl in
        let (g, at, q, q', is) =
          grant_resource-token form request.resource w t (ground (arith, h, named)) in
        (
          ground (arith, eq_iff request.refresh_token "", named),
          ground (arith, is, client_token-named form w g q),
          ground (arith, is),
          (
            form,
            g,
            fields.0,
            fields.1,
            fields.2,
            fields.3,
            q,
            ground (arith, is),
            ground (arith, is, q'),
            elim (grant_lifetime-positive g) [
              | inl lives ↦ inl (unfold add in ground (arith, is, +ℤ_parts at (grant_lifetime g)))
              | inr big ↦ inr big
            ],
          ),
        )
  ]

  -- Client.Refresh never drops the session: what it returns is not blank, it is the provider's new
  -- refresh token, or the presented one where the provider named none, and it expires two weeks
  -- after the issue of the access token.
  pub refresh_never_drops :
      (presented : String) (w : W) (session : Session)
      → (client_refresh wire c presented w).0 ≡ ok session
      → (session.refresh_token ≢ "")
        × (session.access.value ≢ "")
        × (session.refresh_expires_at ≡ session.access.issued_at +ℤ refresh_token_lifetime)
        × ((form : Assoc String) × (g : TokenResponse) × ((client_token wire c form w).0 ≡ ok g)
            × ((g.refresh_token ≡ "") × (session.refresh_token ≡ presented)
                ⊎ (g.refresh_token ≢ "") × (session.refresh_token ≡ g.refresh_token)))
  unfolding client_refresh access_token_of client_now refreshed_session granted_token add
  refresh_never_drops presented w session h =
      let form = insert "refresh_token" presented (insert "grant_type" "refresh_token" []) in
      elim (Bool-cases (presented == "")) [
        | inl blank ↦ absurd (ground arith)
        | inr named ↦ elim (Result-cases (client_token wire c form w).0) [
          | inr (e, q) ↦ absurd (ground arith)
          | inl (g, q) ↦ elim (Result-cases (c.clock.now_utc (client_token wire c form w).1).0) [
            | inr (e, q') ↦ absurd (ground arith)
            | inl (at, q') ↦ (
              ground (arith, eq_iff presented "", eq_iff g.refresh_token ""),
              ground (arith, client_token-named form w g q),
              ground arith,
              (form, g, q, ground (arith, eq_iff g.refresh_token "")),
            )
          ]
        ]
      ]

  -- An operation that lacks what it acts on asks nobody: ResourceToken and Refresh without a refresh
  -- token, MintOneTimeToken without a subject, and SetClaim without a subject or a name fail as
  -- their own problems, and neither the clock nor the provider is called.
  pub blank_asks_nobody :
      (resource : Resource) (email : Option String) (subject name : String) (value : Value) (w : W)
      → subject ≡ "" ⊎ name ≡ ""
      → (client_resource_token wire c
            (record { subject = subject; refresh_token = ""; resource = resource })
            w
          ≡ (
            err (
                raise c.problems refresh_token_unknown "a blank refresh token cannot be exchanged"
                  []),
            w,
          ))
        × (client_refresh wire c "" w ≡ (
          err (raise c.problems refresh_token_unknown "a blank refresh token cannot be rotated" []),
          w,
        ))
        × (client_mint_one_time_token wire c (record { subject = ""; email = email }) w ≡ (
          err (
              raise c.problems token_claim_missing
                "a one-time token must be minted for a known subject"
                (("claim", text claim_subject) ∷ [])),
          w,
        ))
        × (client_set_claim wire c subject name value w ≡ (
          err (
              raise c.problems token_claim_missing
                "a claim write-back needs both a subject and a claim name"
                (("subject", text subject) ∷ ("claim", text name) ∷ [])),
          w,
        ))
  unfolding client_resource_token client_refresh client_mint_one_time_token client_set_claim
  blank_asks_nobody resource email subject name value w blank =
      (refl, refl, refl, ground (arith, eq_iff subject "", eq_iff name ""))
