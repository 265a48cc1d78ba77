-- ===== src/Idp/Minted.antt =====
-- What the claims of a token that the fake of testhelper/idp.go minted hold under each name.
use diene_go_auth_engine.Prelude.{
  String, List, [], ◌∷◌, All, Bool, true, false, not, ◌==◌, ◌≡◌, ◌≢◌, eq_iff, refl, arith,
  if◌then◌else◌, inl, inr, Bool-cases,
}
use diene_go_auth_engine.Value.{Value, text, flag, int64, list, null, insert, lookup, lookup-insert}
use diene_go_auth_engine.Claims.{
  Claims, claim, claim_audience, claim_email, claim_email_verified, claim_expiry,
  claim_home_landscape, claim_issuer, claim_roles, claim_scope, claim_subject, claim_username,
}
use diene_go_auth_engine.Time.{Instant}
use diene_go_auth_engine.Principal.{registration_claim}
use diene_go_auth_engine.Idp.Requests.{
  TokenRequest, put_if, put_registered, named_claims, base_claims, is_nonempty, expiry_of,
  unix_seconds, default_subject,
}
use diene_go_auth_engine.Idp.Support.{to_any, join_scopes, or_default}

pub claim-insert :
    (name other : String) (v : Value) (c : Claims)
    → claim (insert name v c) other ≡ (if name == other then v else claim c other)
unfolding claim
claim-insert name other v c = ground (arith, lookup-insert name other v c)

pub claim-put_if :
    (b : Bool) (name other : String) (v : Value) (c : Claims)
    → claim (put_if b name v c) other
      ≡ (if b then (if name == other then v else claim c other) else claim c other)
unfolding put_if
claim-put_if true name other v c = claim-insert name other v c
claim-put_if false name other v c = refl

module _ (slugify : String → String) where
  -- No backend's registration claim has the name.
  abbrev pub Apart : List String → String → Type 0
  Apart backends name = All (λ b. registration_claim slugify b ≢ name) backends

  pub claim-put_registered :
      (backends : List String) (c : Claims) (name : String)
      → Apart backends name
      → claim (put_registered slugify backends c) name ≡ claim c name
  unfolding put_registered
  claim-put_registered [] c name h = refl
  claim-put_registered (b ∷ bs) c name h = ground (
    arith,
    claim-put_registered bs (insert (registration_claim slugify b) (text "true") c) name h.1,
    claim-insert (registration_claim slugify b) name (text "true") c,
    eq_iff (registration_claim slugify b) name,
  )

  put_registered-keeps :
      (backends : List String) (c : Claims) (name : String)
      → claim c name ≡ text "true"
      → claim (put_registered slugify backends c) name ≡ text "true"
  unfolding put_registered
  put_registered-keeps [] c name h = h
  put_registered-keeps (b ∷ bs) c name h =
      put_registered-keeps bs (insert (registration_claim slugify b) (text "true") c) name
        (ground (arith, claim-insert (registration_claim slugify b) name (text "true") c, h))

  -- Each backend that a request names as registered has its claim.
  pub put_registered-claims :
      (backends : List String) (c : Claims)
      → All
          (λ b.
            claim (put_registered slugify backends c) (registration_claim slugify b) ≡ text "true")
          backends
  unfolding put_registered
  put_registered-claims [] c = tt
  put_registered-claims (b ∷ bs) c =
      let name = registration_claim slugify b in
      (
        put_registered-keeps bs (insert name (text "true") c) name
            (ground (arith, claim-insert name name (text "true") c, eq_iff name name)),
        put_registered-claims bs (insert name (text "true") c),
      )

put_if-other :
    (b : Bool) (name other : String) (v : Value) (c : Claims)
    → (name == other) ≡ false
    → claim (put_if b name v c) other ≡ claim c other
put_if-other b name other v c h = elim (Bool-cases b) [
  | inl e ↦ ground (arith, claim-put_if b name other v c)
  | inr e ↦ ground (arith, claim-put_if b name other v c)
]

put_if-same :
    (b : Bool) (name : String) (v : Value) (c : Claims)
    → claim (put_if b name v c) name ≡ (if b then v else claim c name)
put_if-same b name v c = ground (arith, claim-put_if b name name v c, eq_iff name name)

-- The names that `mint` gives to claims of its own, and the one that the parser reads besides
abbrev pub reserved_claims : List String
reserved_claims =
    claim_subject ∷ claim_issuer ∷ claim_audience ∷ claim_expiry ∷ claim_username ∷ claim_email
    ∷ claim_email_verified ∷ claim_roles ∷ claim_scope ∷ claim_home_landscape ∷ "nbf" ∷ []

module _ (slugify : String → String) (issuer audience : String) (request : TokenRequest)
    (now : Instant) (apart : All (Apart slugify request.registered) reserved_claims) where
  abbrev base : Claims
  base = base_claims issuer request audience now

  abbrev named : Claims
  named = named_claims request now base

  abbrev pub full : Claims
  full = put_registered slugify request.registered named

  from_named :
      (name : String) (v : Value)
      → Apart slugify request.registered name
      → claim named name ≡ v
      → claim full name ≡ v
  from_named name v h e =
      ground (arith, claim-put_registered slugify request.registered named name h)

  pub full-subject : claim full claim_subject ≡ text (or_default request.subject default_subject)
  unfolding named_claims base_claims claim lookup
  full-subject = from_named claim_subject _ apart.0 (simp (put_if-other))

  pub full-issuer : claim full claim_issuer ≡ text (or_default request.issuer issuer)
  unfolding named_claims base_claims claim lookup
  full-issuer = from_named claim_issuer _ apart.1.0 (simp (put_if-other))

  pub full-audience : claim full claim_audience ≡ text audience
  unfolding named_claims base_claims claim lookup
  full-audience = from_named claim_audience _ apart.1.1.0 (simp (put_if-other))

  pub full-expiry :
      claim full claim_expiry
      ≡ (if not request.omit_expiry then int64 (unix_seconds (expiry_of request now)) else null)
  unfolding named_claims base_claims claim lookup
  full-expiry = from_named claim_expiry _ apart.1.1.1.0 (simp (put_if-other, put_if-same))

  pub full-username :
      claim full claim_username
      ≡ (if not (request.username == "") then text request.username else null)
  unfolding named_claims base_claims claim lookup
  full-username = from_named claim_username _ apart.1.1.1.1.0 (simp (put_if-other, put_if-same))

  pub full-email :
      claim full claim_email ≡ (if not (request.email == "") then text request.email else null)
  unfolding named_claims base_claims claim lookup
  full-email = from_named claim_email _ apart.1.1.1.1.1.0 (simp (put_if-other, put_if-same))

  pub full-email_verified :
      claim full claim_email_verified
      ≡ (if not (request.email == "") then flag (not request.email_unverified) else null)
  unfolding named_claims base_claims claim lookup
  full-email_verified =
      from_named claim_email_verified _ apart.1.1.1.1.1.1.0 (simp (put_if-other, put_if-same))

  pub full-roles :
      claim full claim_roles
      ≡ (if is_nonempty request.roles then list (to_any request.roles) else null)
  unfolding named_claims base_claims claim lookup
  full-roles = from_named claim_roles _ apart.1.1.1.1.1.1.1.0 (simp (put_if-other, put_if-same))

  pub full-scope :
      claim full claim_scope
      ≡ (if is_nonempty request.scopes then text (join_scopes request.scopes) else null)
  unfolding named_claims base_claims claim lookup
  full-scope = from_named claim_scope _ apart.1.1.1.1.1.1.1.1.0 (simp (put_if-other, put_if-same))

  pub full-home :
      claim full claim_home_landscape
      ≡ (if not (request.home_landscape == "") then text request.home_landscape else null)
  unfolding named_claims base_claims claim lookup
  full-home =
      from_named claim_home_landscape _ apart.1.1.1.1.1.1.1.1.1.0 (simp (put_if-other, put_if-same))

  pub full-not_before : claim full "nbf" ≡ null
  unfolding named_claims base_claims claim lookup
  full-not_before = from_named "nbf" _ apart.1.1.1.1.1.1.1.1.1.1.0 (simp (put_if-other))

  pub full-registered :
      All (λ b. claim full (registration_claim slugify b) ≡ text "true") request.registered
  full-registered = put_registered-claims slugify request.registered named
