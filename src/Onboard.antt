-- ===== src/Onboard.antt =====
-- lib/onboard/sync.go and phase.go: the round that brings every registered backend to a phase.
pub mod Phases
pub mod Progress
pub mod Rows
pub mod Once
pub mod OwnToken
use diene_go_auth_engine.Prelude.{
  String, Option, none, some, List, [], ◌∷◌, Bool, true, false, not, ◌==◌, if◌then◌else◌, arith,
}
use diene_go_auth_engine.Token.{AccessToken}
use diene_go_auth_engine.Value.{Assoc, insert, text}
use diene_go_auth_engine.Landscape.{ClaimWriter}
use diene_go_auth_engine.Effect.{Eff, on_err}
use diene_go_auth_engine.Problems.{
  Error, Problems, Result, config_invalid, err, ok, onboarding_stalled, plain, provider_unavailable,
  raise, raise_from, token_claim_missing,
}
use diene_go_auth_engine.Principal.{Principal, or_zero, registered, registration_claim}
use diene_go_auth_engine.Claims.{claim_subject, claims_text}

pub data Phase : Type 0 where
  phase_pre_onboarding : Phase
  phase_bootstrapping : Phase
  phase_needs_onboarding : Phase
  phase_ready : Phase
  phase_error : Phase

pub record State : Type 0 where
  pub backend : String
  pub phase : Phase
  pub created : Bool
  pub claim_written : Bool
  pub failure : Option Error

-- State.Ready
unfoldable pub ready : State → Bool
ready s = elim s.phase [
  | phase_ready ↦ true
  | phase_pre_onboarding ↦ false
  | phase_bootstrapping ↦ false
  | phase_needs_onboarding ↦ false
  | phase_error ↦ false
]

pub record Registration : Type 0 where
  pub subject : String
  pub username : String
  pub email : String
  pub access_token : String
  pub id_token : String

-- The Backend seam, with the optional Configurable of a backend that has it
pub record Backend (W : Type 0) : Type 0 where
  pub name : String
  pub exists : AccessToken → Eff W Bool
  pub create : AccessToken → Registration → Eff W (Unit {0})
  pub configured : Option (AccessToken → Eff W Bool)

-- The TokenRefresher seam
pub record TokenRefresher (W : Type 0) : Type 0 where
  pub refresh : String → Eff W Principal

-- authengine.Retriever, as far as the round uses it
pub record Retriever (W : Type 0) : Type 0 where
  pub token : String → Eff W AccessToken

pub record SyncOptions (W : Type 0) : Type 0 where
  pub backends : List (Backend W)
  pub claims : Option (ClaimWriter W)
  pub refresher : Option (TokenRefresher W)
  pub tokens : Option (Retriever W)
  pub problems : Option Problems

pub record Sync (W : Type 0) : Type 0 where
  pub backends : List (Backend W)
  pub claims : ClaimWriter W
  pub refresher : TokenRefresher W
  pub tokens : Retriever W
  pub problems : Problems

abbrev pub raw_id_token_claim : String
raw_id_token_claim = "atomi_raw_id_token"

-- `buildRegistration`
unfoldable pub build_registration : Principal → AccessToken → Registration
build_registration p token = record {
  subject = p.subject;
  username = or_zero "" p.username;
  email = or_zero "" p.email;
  access_token = token.value;
  id_token = or_zero "" (claims_text p.claims raw_id_token_claim);
}

-- `failed`
unfoldable pub failed : State → Error → State
failed state e = record state { phase = phase_error; failure = some e }

-- The state that `reconcile` starts from
abbrev pub initial : String → State
initial name = record {
  backend = name;
  phase = phase_bootstrapping;
  created = false;
  claim_written = false;
  failure = none;
}

module _ {W : Type 0} where
  -- NewSync
  unfoldable pub new_sync : SyncOptions W → Result (Sync W)
  new_sync options = elim options.problems [
    | none ↦ err (plain "auth-engine onboarding requires a problem factory")
    | some p ↦ elim options.backends [
      | [] ↦ err (plain "auth-engine onboarding requires at least one backend")
      | b ∷ bs ↦ elim options.claims [
        | none ↦ err (
            raise p config_invalid
              "a claim writer is required so registration is recorded on the identity provider" [])
        | some claims ↦ elim options.refresher [
          | none ↦ err (
              raise p config_invalid
                "a token refresher is required so a written claim can be re-verified" [])
          | some refresher ↦ elim options.tokens [
            | none ↦ err (
                raise p config_invalid
                  "a token retriever is required so each backend is called with its own token" [])
            | some tokens ↦ ok (record {
              backends = b ∷ bs;
              claims = claims;
              refresher = refresher;
              tokens = tokens;
              problems = p;
            })
          ]
        ]
      ]
    ]
  ]

  -- A step of a backend's round: `if err != nil { return failed(state, err) }`
  abbrev pub proceed : {A : Type 0} → State → (A → W → State × W) → Result A × W → State × W
  proceed state next (err e, w) = (failed state e, w)
  proceed state next (ok a, w) = next a w

  unfoldable pub attempt : {A : Type 0} → State → Eff W A → (A → W → State × W) → W → State × W
  attempt state call next w = proceed state next (call w)

  -- Sync.settle
  unfoldable pub settle : Sync W → State → Backend W → W → State × W
  unfolding attempt
  settle s state b w = elim b.configured [
    | none ↦ (record state { phase = phase_ready }, w)
    | some configured ↦
        attempt state (s.tokens.token state.backend)
          (λ token. attempt state (configured token) (λ done w'.
            (record state { phase = if done then phase_ready else phase_needs_onboarding }, w')))
          w
  ]

module _ {W : Type 0} (slugify : String → String) where
  -- The end of Sync.reconcile: the claim is written, and looked for on a refreshed token.
  unfoldable pub confirm : Sync W → Principal → Backend W → State → W → State × W
  unfolding attempt settle
  confirm s p b state =
      attempt state
        (on_err
          (λ e.
            raise_from s.problems provider_unavailable e
              "the registration claim could not be written back"
              (("backend", text b.name) ∷ ("claim", text (registration_claim slugify b.name)) ∷ []))
          (s.claims.set_claim p.subject (registration_claim slugify b.name) (text "true")))
        (λ u.
          attempt (record state { claim_written = true }) (s.refresher.refresh p.subject)
            (λ refreshed w'.
              if not (registered slugify refreshed b.name)
              then (
                failed (record state { claim_written = true })
                    (raise s.problems onboarding_stalled
                      "the registration claim did not appear on a refreshed token"
                      (("backend", text b.name)
                        ∷ ("claim", text (registration_claim slugify b.name))
                        ∷ [])),
                w',
              )
              else settle s (record state { claim_written = true }) b w'))

  -- The creation of the row in Sync.reconcile, where there is none
  unfoldable pub register : Sync W → Principal → Backend W → AccessToken → Bool → W → State × W
  unfolding attempt confirm
  register s p b token exists w =
      if exists
      then confirm s p b (initial b.name) w
      else attempt (initial b.name) (b.create token (build_registration p token))
          (λ u. confirm s p b (record (initial b.name) { created = true })) w

  -- Sync.reconcile
  unfoldable pub reconcile : Sync W → Principal → Backend W → W → State × W
  unfolding attempt settle register
  reconcile s p b w =
      if registered slugify p b.name
      then settle s (initial b.name) b w
      else attempt (initial b.name) (s.tokens.token b.name)
          (λ token. attempt (initial b.name) (b.exists token) (register s p b token)) w

  -- The loop of Sync.Run
  unfoldable pub reconcile_all :
      Sync W → Principal → List (Backend W) → Assoc State → W → Assoc State × W
  unfolding reconcile
  reconcile_all s p [] states w = (states, w)
  reconcile_all s p (b ∷ bs) states w =
      let (state, w') = reconcile s p b w in reconcile_all s p bs (insert b.name state states) w'

  -- Sync.Run
  unfoldable pub run_sync : Sync W → Principal → Eff W (Assoc State)
  unfolding reconcile_all
  run_sync s p w =
      if p.subject == ""
      then (
        err (
            raise s.problems token_claim_missing "onboarding requires an authenticated subject"
              (("claim", text claim_subject) ∷ [])),
        w,
      )
      else (let (states, w') = reconcile_all s p s.backends [] w in (ok states, w'))
