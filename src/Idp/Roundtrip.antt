-- ===== src/Idp/Roundtrip.antt =====
-- A token that the fake of testhelper/idp.go mints is one that its validator accepts, and the
-- principal says what the request asked for.
use diene_go_auth_engine.Prelude.{
  String, Option, some, none, List, [], ◌∷◌, All, Bool, true, false, not, ◌&&◌, ◌==◌, ◌≡◌, inl, inr,
  refl, arith, ℕ, ◌≤◌, ◌^◌, if◌then◌else◌, Bool-cases,
}
use diene_go_auth_engine.Prelude.Int.{pos}
use diene_go_auth_engine.Value.{text, flag, int64, float64, list, null, lookup}
use diene_go_auth_engine.Claims.{
  Claims, claim, claim_audience, claim_email, claim_email_verified, claim_expiry,
  claim_home_landscape, claim_issuer, claim_roles, claim_scope, claim_subject, claim_username, unix,
  claims_text, claims_flag, claims_list, claims_space, claims_instant, text_members, clone,
}
use diene_go_auth_engine.Time.{Instant}
use diene_go_auth_engine.Principal.{
  Principal, map_claims, new_claim_mapper, or_default as claim_or_default, registered,
  registration_claim, or_zero, optional,
}
use diene_go_auth_engine.Text.Words.{IsWord, fields-join_spaces}
use diene_go_auth_engine.Idp.Requests.{
  TokenRequest, expiry_of, unix_seconds, is_nonempty, default_subject,
}
use diene_go_auth_engine.Idp.Support.{or_default, to_any, join_scopes}
use diene_go_auth_engine.Idp.Minted.{
  Apart, full, reserved_claims, full-audience, full-roles, full-issuer, full-subject, full-email,
  full-email_verified, full-expiry, full-home, full-scope, full-username, full-registered,
}
use diene_go_auth_engine.Text.{fields, join_spaces}

-- What encoding/json documents of a map written and read back into values of any type: texts, flags
-- and lists of texts stay, a whole number below 2 ^ 53 comes back as a float64, and an absent key
-- stays absent.
pub record Rereads (reread : Claims → Claims) : Type 0 where
  pub reread-text : (c : Claims) (n s : String) → claim c n ≡ text s → claim (reread c) n ≡ text s
  pub reread-flag :
      (c : Claims) (n : String) (b : Bool) → claim c n ≡ flag b → claim (reread c) n ≡ flag b
  pub reread-list :
      (c : Claims) (n : String) (ss : List String)
      → claim c n ≡ list (to_any ss)
      → claim (reread c) n ≡ list (to_any ss)
  pub reread-int64 :
      (c : Claims) (n : String) (s : ℕ)
      → claim c n ≡ int64 (pos s)
      → s ≤ 2 ^ 53
      → claim (reread c) n ≡ float64 (pos s)
  pub reread-null : (c : Claims) (n : String) → claim c n ≡ null → claim (reread c) n ≡ null

-- A text that is not empty
abbrev pub nonempty : String → Option String
nonempty s = if not (s == "") then some s else none

text_members-to_any : (ss : List String) → text_members (to_any ss) ≡ ss
text_members-to_any [] = refl
text_members-to_any (s ∷ ss) = ground (arith, text_members-to_any ss)

module _ (reread : Claims → Claims) (rereads : Rereads reread) (c : Claims) (n : String)
    (b : Bool) where
  read_text :
      (s : String)
      → claim c n ≡ (if b then text s else null)
      → claims_text (reread c) n ≡ (if b then some s else none)
  unfolding claims_text
  read_text s h = elim (Bool-cases b) [
    | inl e ↦ ground (arith, rereads.reread-text c n s)
    | inr e ↦ ground (arith, rereads.reread-null c n)
  ]

  read_flag :
      (f : Bool)
      → claim c n ≡ (if b then flag f else null)
      → claims_flag (reread c) n ≡ (if b then some f else none)
  unfolding claims_flag
  read_flag f h = elim (Bool-cases b) [
    | inl e ↦ ground (arith, rereads.reread-flag c n f)
    | inr e ↦ ground (arith, rereads.reread-null c n)
  ]

  read_list :
      (ss : List String)
      → claim c n ≡ (if b then list (to_any ss) else null)
      → claims_list (reread c) n ≡ (if b then some ss else none)
  unfolding claims_list
  read_list ss h = elim (Bool-cases b) [
    | inl e ↦ ground (arith, rereads.reread-list c n ss, text_members-to_any ss)
    | inr e ↦ ground (arith, rereads.reread-null c n)
  ]

-- What a request asks a token to say: the principal of it, for an issuer, an audience and an expiry
-- in whole seconds since the Unix epoch
abbrev pub Describes : (String → String) → String → String → ℕ → TokenRequest → Principal → Type 0
Describes slugify issuer audience s request p =
    (p.subject ≡ or_default request.subject default_subject)
    × (p.issuer ≡ or_default request.issuer issuer)
    × (p.audience ≡ audience ∷ [])
    × (p.username ≡ nonempty request.username)
    × (p.email ≡ nonempty request.email)
    × (p.email_verified ≡ (not (request.email == "") && not request.email_unverified))
    × (p.roles ≡ request.roles)
    × (p.scopes ≡ request.scopes)
    × (p.home_landscape ≡ nonempty request.home_landscape)
    × (p.expires_at ≡ unix (pos s))
    × All (λ b. registered slugify p b ≡ true) request.registered

or_nil-nonempty : (ss : List String) → or_zero [] (if is_nonempty ss then some ss else none) ≡ ss
or_nil-nonempty [] = refl
or_nil-nonempty (s ∷ ss) = refl

scopes_of : Option String → List String
scopes_of none = []
scopes_of (some s) = fields s

or_nil-scopes :
    (ss : List String)
    → All IsWord ss
    → scopes_of (if is_nonempty ss then some (join_spaces ss) else none) ≡ ss
unfolding scopes_of
or_nil-scopes [] h = refl
or_nil-scopes (s ∷ ss) h = fields-join_spaces (s ∷ ss) h

lookup-clone : (c : Claims) (n : String) → lookup n (clone c) ≡ lookup n c
unfolding clone lookup
lookup-clone [] n = refl
lookup-clone ((k, v) ∷ c) n = ground (arith, lookup-clone c n)

claim-clone : (c : Claims) (n : String) → claim (clone c) n ≡ claim c n
unfolding claim
claim-clone c n = ground (arith, lookup-clone c n)

module _ (slugify : String → String) where
  registered-All :
      (p : Principal) (names : List String)
      → All (λ b. claim p.claims (registration_claim slugify b) ≡ text "true") names
      → All (λ b. registered slugify p b ≡ true) names
  unfolding registered claims_flag
  registered-All p [] h = tt
  registered-All p (b ∷ bs) h = (ground (arith, h.0), registered-All p bs h.1)

  reread-All :
      (reread : Claims → Claims) (rereads : Rereads reread) (c : Claims) (names : List String)
      → All (λ b. claim c (registration_claim slugify b) ≡ text "true") names
      → All (λ b. claim (clone (reread c)) (registration_claim slugify b) ≡ text "true") names
  reread-All reread rereads c [] h = tt
  reread-All reread rereads c (b ∷ bs) h = (
    ground (
      arith,
      rereads.reread-text c (registration_claim slugify b) "true" h.0,
      claim-clone (reread c) (registration_claim slugify b),
    ),
    reread-All reread rereads c bs h.1,
  )

module _ (reread : Claims → Claims) (rereads : Rereads reread) (slugify : String → String)
    (issuer audience : String) (request : TokenRequest) (now : Instant) (s : ℕ)
    (apart : All (Apart slugify request.registered) reserved_claims)
    (expires : request.omit_expiry ≡ false) (seconds : unix_seconds (expiry_of request now) ≡ pos s)
    (small : s ≤ 2 ^ 53) (words : All IsWord request.scopes) where
  abbrev c : Claims
  c = full slugify issuer audience request now apart

  -- The principal that the default mapper makes of the minted claims, read back, is the one that the
  -- request describes.
  pub full-Describes :
      Describes slugify issuer audience s request (map_claims new_claim_mapper (reread c))
  unfolding map_claims claim_or_default optional claims_list claims_space claims_instant claims_text
      claims_flag scopes_of join_scopes
  full-Describes = (
    ground (
      arith,
      rereads.reread-text c claim_subject (or_default request.subject default_subject),
      full-subject slugify issuer audience request now apart,
    ),
    ground (
      arith,
      rereads.reread-text c claim_issuer (or_default request.issuer issuer),
      full-issuer slugify issuer audience request now apart,
    ),
    ground (
      arith,
      rereads.reread-text c claim_audience audience,
      full-audience slugify issuer audience request now apart,
    ),
    ground (
      arith,
      read_text reread rereads c claim_username (not (request.username == "")) request.username
          (full-username slugify issuer audience request now apart),
    ),
    ground (
      arith,
      read_text reread rereads c claim_email (not (request.email == "")) request.email
          (full-email slugify issuer audience request now apart),
    ),
    ground (
      arith,
      read_flag reread rereads c claim_email_verified (not (request.email == ""))
          (not request.email_unverified)
          (full-email_verified slugify issuer audience request now apart),
    ),
    ground (
      arith,
      read_list reread rereads c claim_roles (is_nonempty request.roles) request.roles
          (full-roles slugify issuer audience request now apart),
      or_nil-nonempty request.roles,
    ),
    ground (
      arith,
      read_text reread rereads c claim_scope (is_nonempty request.scopes)
          (join_spaces request.scopes) (full-scope slugify issuer audience request now apart),
      or_nil-scopes request.scopes words,
    ),
    ground (
      arith,
      read_text reread rereads c claim_home_landscape (not (request.home_landscape == ""))
          request.home_landscape (full-home slugify issuer audience request now apart),
    ),
    ground (
      arith,
      rereads.reread-int64 c claim_expiry s,
      full-expiry slugify issuer audience request now apart,
    ),
    registered-All slugify (map_claims new_claim_mapper (reread c)) request.registered (
        reread-All slugify reread rereads c request.registered
          (full-registered slugify issuer audience request now apart)),
  )
