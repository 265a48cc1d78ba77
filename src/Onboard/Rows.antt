-- ===== src/Onboard/Rows.antt =====
-- The user rows of a backend under the rounds of lib/onboard/sync.go: no round takes one away.
use diene_go_auth_engine.Prelude.{
  String, Bool, true, false, some, arith, ◌≡◌, inl, inr, Bool-cases, Option-cases, All, List, [],
  ◌∙◌, ◌∷◌,
}
use diene_go_auth_engine.Onboard.{
  Backend, Registration, State, Sync, build_registration, confirm, initial, reconcile, register,
  settle,
}
use diene_go_auth_engine.Principal.{Principal, registered, registration_claim}
use diene_go_auth_engine.Effect.{Result-cases, Eff}
use diene_go_auth_engine.Problems.{ok}
use diene_go_auth_engine.Token.{AccessToken}
use diene_go_auth_engine.Value.{Value, text}

-- What a backend promises of its user rows, one for each caller, whom a token identifies: Exists tells
-- whether the caller's row is there, a Create that succeeds leaves it there, a Create for a caller whose
-- row is there already succeeds where the backend is up, and nothing takes a row away.
pub record IsCreateOrOk {W : Type 0} (b : Backend W) (caller : AccessToken → String)
    (row : W → String → Bool) (up : W → Bool) : Type 0 where
  pub exists-row :
      (t : AccessToken) (w : W) (x : Bool) → (b.exists t w).0 ≡ ok x → x ≡ row w (caller t)
  pub row-exists : (t : AccessToken) (w : W) (who : String) → row (b.exists t w).1 who ≡ row w who
  pub row-create :
      (t : AccessToken) (r : Registration) (w : W)
      → (b.create t r w).0 ≡ ok tt
      → row (b.create t r w).1 (caller t) ≡ true
  pub row-create_keeps :
      (t : AccessToken) (r : Registration) (w : W) (who : String)
      → row w who ≡ true
      → row (b.create t r w).1 who ≡ true
  pub create_or_ok :
      (t : AccessToken) (r : Registration) (w : W)
      → row w (caller t) ≡ true
      → up w ≡ true
      → (b.create t r w).0 ≡ ok tt
  pub row-configured :
      (t : AccessToken) (w : W) (who : String) (c : AccessToken → Eff W Bool)
      → b.configured ≡ some c
      → row (c t w).1 who ≡ row w who

-- The seams of a round that leave a backend's rows alone
pub record SparesRow {W : Type 0} (s : Sync W) (row : W → String → Bool) : Type 0 where
  pub row-token :
      (name : String) (w : W) (who : String) → row (s.tokens.token name w).1 who ≡ row w who
  pub row-set_claim :
      (subject name : String) (v : Value) (w : W) (who : String)
      → row (s.claims.set_claim subject name v w).1 who ≡ row w who
  pub row-refresh :
      (subject : String) (w : W) (who : String)
      → row (s.refresher.refresh subject w).1 who ≡ row w who

-- One round after the other, each of its own caller and over its own seams
unfoldable pub run_rounds :
    {W : Type 0} → (String → String) → Backend W → List (Sync W × Principal) → W → W
run_rounds slugify b [] w = w
run_rounds slugify b ((s, p) ∷ rounds) w = run_rounds slugify b rounds (reconcile slugify s p b w).1

module _ {W : Type 0} (slugify : String → String) (b : Backend W) (caller : AccessToken → String)
    (row : W → String → Bool) (up : W → Bool) (backend : IsCreateOrOk b caller row up) where
  module _ (s : Sync W) (p : Principal) (seams : SparesRow s row) (who : String) where
    settle-row : (st : State) (w : W) → row (settle s st b w).1 who ≡ row w who
    unfolding settle
    settle-row st w = elim (Option-cases b.configured) [
      | inl q ↦ ground arith
      | inr (configured, q) ↦
          let w' = (s.tokens.token st.backend w).1 in
          let spared = seams.row-token st.backend w who in
          elim (Result-cases (s.tokens.token st.backend w).0) [
            | inr (e, q') ↦ ground (arith, spared)
            | inl (t, q') ↦
                let kept = backend.row-configured t w' who configured q in
                elim (Result-cases (configured t w').0) [
                  | inr (e, q'') ↦ ground (arith, spared, kept)
                  | inl (done, q'') ↦ ground (arith, spared, kept)
                ]
          ]
    ]

    pub confirm-row : (st : State) (w : W) → row (confirm slugify s p b st w).1 who ≡ row w who
    unfolding confirm
    confirm-row st w =
        let claim = registration_claim slugify b.name in
        let w1 = (s.claims.set_claim p.subject claim (text "true") w).1 in
        let w2 = (s.refresher.refresh p.subject w1).1 in
        let kept1 = seams.row-set_claim p.subject claim (text "true") w who in
        let kept2 = seams.row-refresh p.subject w1 who in
        elim (Result-cases (s.claims.set_claim p.subject claim (text "true") w).0) [
          | inr (e, q) ↦ ground arith
          | inl (u, q) ↦ elim (Result-cases (s.refresher.refresh p.subject w1).0) [
            | inr (e, q') ↦ ground arith
            | inl (refreshed, q') ↦ elim (Bool-cases (registered slugify refreshed b.name)) [
              | inl there ↦ ground (arith, settle-row (record st { claim_written = true }) w2)
              | inr lacks ↦ ground arith
            ]
          ]
        ]

    register-row :
        (t : AccessToken) (found : Bool) (w : W)
        → row w who ≡ true
        → row (register slugify s p b t found w).1 who ≡ true
    unfolding register
    register-row t true w h = confirm-row (initial b.name) w ∙ h
    register-row t false w h =
        let w' = (b.create t (build_registration p t) w).1 in
        let kept = backend.row-create_keeps t (build_registration p t) w who h in
        elim (Result-cases (b.create t (build_registration p t) w).0) [
          | inr (e, q) ↦ ground (arith, kept)
          | inl (u, q) ↦
              ground (arith, kept, confirm-row (record (initial b.name) { created = true }) w')
        ]

    -- A round takes no row away, also one that fails.
    reconcile-row : (w : W) → row w who ≡ true → row (reconcile slugify s p b w).1 who ≡ true
    unfolding reconcile
    reconcile-row w h =
        let w1 = (s.tokens.token b.name w).1 in
        let spared = seams.row-token b.name w who in
        elim (Bool-cases (registered slugify p b.name)) [
          | inl there ↦ ground (arith, settle-row (initial b.name) w)
          | inr lacks ↦ elim (Result-cases (s.tokens.token b.name w).0) [
            | inr (e, q) ↦ ground (arith, spared)
            | inl (t, q) ↦
                let seen = backend.row-exists t w1 who in
                elim (Result-cases (b.exists t w1).0) [
                  | inr (e, q') ↦ ground (arith, spared, seen)
                  | inl (found, q') ↦
                      ground (arith, spared, seen, register-row t found (b.exists t w1).1)
                ]
          ]
        ]

  pub run_rounds-row :
      (rounds : List (Sync W × Principal)) (w : W) (who : String)
      → All (λ r. SparesRow r.0 row) rounds
      → row w who ≡ true
      → row (run_rounds slugify b rounds w) who ≡ true
  unfolding run_rounds
  run_rounds-row [] w who h there = there
  run_rounds-row ((s, p) ∷ rounds) w who h there =
      run_rounds-row rounds (reconcile slugify s p b w).1 who h.1
        (reconcile-row s p h.0 who w there)
