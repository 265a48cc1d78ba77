-- ===== src/Problems.antt =====
-- lib/authengine/problems.go: the problem ids, their declared types, and the factory that turns a
-- failure into a problem-typed error. The registry of declared types and the catalog are the
-- errors-problems library's, and parameters here.
pub mod Declared
use diene_go_auth_engine.Prelude.{
  ℕ, String, Bool, true, false, Option, none, some, List, [], ◌∷◌, arith, ◌++◌,
}
use diene_go_auth_engine.Value.{Value, Assoc}

pub record ProblemType : Type 0 where
  pub id : String
  pub title : String
  pub version : String
  pub status : ℕ
  pub recoverable : Bool

pub record Problem : Type 0 where
  pub type_uri : String
  pub title : String
  pub status : ℕ
  pub detail : Option String
  pub recoverable : Bool
  pub payload : Assoc Value

-- An error value: a problem, a problem that wraps its cause, or an error with its text alone.
pub data Error : Type 0 where
  problem_error : Problem → Error
  wrapped : Problem → Error → Error
  plain : String → Error

pub data Result {ℓ} (A : Type ℓ) : Type ℓ where
  ok : A → Result A
  err : Error → Result A

-- problem.Registry, and problem.FromObject at no object for the registry's portal.
pub record Registry : Type 0 where
  pub lookup : String → Option ProblemType
  pub type_uri_for : ProblemType → Result String
  pub from_object : ℕ → String → Problem

pub record Problems : Type 0 where
  pub registry : Registry

abbrev pub problem_version : String
problem_version = "v1"

-- The problem ids.
abbrev pub token_malformed : String
token_malformed = "token-malformed"

abbrev pub token_expired : String
token_expired = "token-expired"

abbrev pub token_signature_invalid : String
token_signature_invalid = "token-signature-invalid"

abbrev pub token_issuer_mismatch : String
token_issuer_mismatch = "token-issuer-mismatch"

abbrev pub token_audience_mismatch : String
token_audience_mismatch = "token-audience-mismatch"

abbrev pub token_claim_missing : String
token_claim_missing = "token-claim-missing"

abbrev pub token_subject_mismatch : String
token_subject_mismatch = "token-subject-mismatch"

abbrev pub signing_key_unknown : String
signing_key_unknown = "signing-key-unknown"

abbrev pub resource_unregistered : String
resource_unregistered = "resource-unregistered"

abbrev pub ownership_denied : String
ownership_denied = "ownership-denied"

abbrev pub policy_unknown : String
policy_unknown = "policy-unknown"

abbrev pub registration_missing : String
registration_missing = "registration-missing"

abbrev pub deferred_token_unknown : String
deferred_token_unknown = "deferred-token-unknown"

abbrev pub deferred_token_expired : String
deferred_token_expired = "deferred-token-expired"

abbrev pub deferred_token_consumed : String
deferred_token_consumed = "deferred-token-consumed"

abbrev pub refresh_token_reused : String
refresh_token_reused = "refresh-token-reused"

abbrev pub refresh_token_unknown : String
refresh_token_unknown = "refresh-token-unknown"

abbrev pub onboarding_stalled : String
onboarding_stalled = "onboarding-stalled"

abbrev pub home_landscape_unresolved : String
home_landscape_unresolved = "home-landscape-unresolved"

abbrev pub provider_unavailable : String
provider_unavailable = "provider-unavailable"

abbrev pub config_invalid : String
config_invalid = "config-invalid"

-- authProblem
unfoldable pub auth_problem : String → String → ℕ → Bool → ProblemType
auth_problem id title status recoverable = record {
  id = id;
  title = title;
  version = problem_version;
  status = status;
  recoverable = recoverable;
}

-- ProblemTypes
unfoldable pub problem_types : List ProblemType
unfolding auth_problem
problem_types =
    auth_problem token_malformed "Token malformed" 401 false
    ∷ auth_problem token_expired "Token expired" 401 true
    ∷ auth_problem token_signature_invalid "Token signature invalid" 401 false
    ∷ auth_problem token_issuer_mismatch "Token issuer not trusted" 401 false
    ∷ auth_problem token_audience_mismatch "Token audience mismatch" 401 false
    ∷ auth_problem token_claim_missing "Token claim missing" 401 false
    ∷ auth_problem token_subject_mismatch "Token subject mismatch" 401 false
    ∷ auth_problem signing_key_unknown "Signing key unknown" 401 true
    ∷ auth_problem resource_unregistered "Resource not registered" 400 false
    ∷ auth_problem ownership_denied "Ownership denied" 403 false
    ∷ auth_problem policy_unknown "Policy unknown" 500 false
    ∷ auth_problem registration_missing "Registration missing" 403 true
    ∷ auth_problem deferred_token_unknown "Deferred token unknown" 401 false
    ∷ auth_problem deferred_token_expired "Deferred token expired" 401 true
    ∷ auth_problem deferred_token_consumed "Deferred token already consumed" 401 false
    ∷ auth_problem refresh_token_reused "Refresh token reused" 401 false
    ∷ auth_problem refresh_token_unknown "Refresh token unknown" 401 false
    ∷ auth_problem onboarding_stalled "Onboarding stalled" 500 true
    ∷ auth_problem home_landscape_unresolved "Home landscape unresolved" 503 true
    ∷ auth_problem provider_unavailable "Identity provider unavailable" 502 true
    ∷ auth_problem config_invalid "Auth configuration invalid" 500 false
    ∷ []

-- Problems.uncatalogued
unfoldable pub uncatalogued : Problems → String → Assoc Value → Problem
uncatalogued p detail payload =
    let fallback = p.registry.from_object 500 problem_version in
    record fallback { detail = some detail; payload = payload }

-- Problems.envelope; a nil payload is the empty one.
unfoldable pub envelope : Problems → String → String → Assoc Value → Problem
unfolding uncatalogued
envelope p id detail payload = elim (p.registry.lookup id) [
  | none ↦ uncatalogued p detail payload
  | some declared ↦ elim (p.registry.type_uri_for declared) [
    | err e ↦ uncatalogued p detail payload
    | ok uri ↦ record {
      type_uri = uri;
      title = declared.title;
      status = declared.status;
      detail = some detail;
      recoverable = declared.recoverable;
      payload = payload;
    }
  ]
]

-- Problems.Raise
unfoldable pub raise : Problems → String → String → Assoc Value → Error
raise p id detail payload = problem_error (envelope p id detail payload)

-- Problems.RaiseFrom
unfoldable pub raise_from : Problems → String → Error → String → Assoc Value → Error
raise_from p id cause detail payload = wrapped (envelope p id detail payload) cause

-- The registry and the catalog of the errors-problems library, over portals P and catalogs C
pub record ProblemLibrary (P C : Type 0) : Type 0 where
  pub new_registry : P → List ProblemType → Result Registry
  pub portal : Registry → P
  pub entries : Registry → List ProblemType
  pub new_catalog : P → C
  pub add_type : C → ProblemType → Result C

module _ {P C : Type 0} (library : ProblemLibrary P C) where
  -- NewProblems
  unfoldable pub new_problems : P → List ProblemType → Result Problems
  new_problems portal extra = elim (library.new_registry portal (problem_types ++ extra)) [
    | err e ↦ err e
    | ok registry ↦ ok (record { registry = registry })
  ]

  -- The loop of Problems.Catalog
  unfoldable pub add_types : C → List ProblemType → Result C
  add_types catalog [] = ok catalog
  add_types catalog (declared ∷ types) = elim (library.add_type catalog declared) [
    | err e ↦ err e
    | ok grown ↦ add_types grown types
  ]

  -- Problems.Catalog
  unfoldable pub catalog_of : Problems → Result C
  unfolding add_types
  catalog_of p =
      add_types (library.new_catalog (library.portal p.registry)) (library.entries p.registry)
