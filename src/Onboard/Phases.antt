-- ===== src/Onboard/Phases.antt =====
-- Where the round of lib/onboard/sync.go leaves each backend.
use diene_go_auth_engine.Prelude.{
  String, none, some, List, [], ◌∷◌, Bool, true, false, ◌==◌, arith, ◌≡◌, ◌⊎◌, inl, inr, refl,
  eq_iff, ◌≢◌, Bool-cases, Option-cases, All, eq_false, eq_refl,
}
use diene_go_auth_engine.Onboard.{
  Backend, State, Sync, failed, phase_error, phase_needs_onboarding, phase_ready, settle, confirm,
  initial, reconcile, register, build_registration, reconcile_all, run_sync,
}
use diene_go_auth_engine.Effect.{Result-cases}
use diene_go_auth_engine.Problems.{Error, ok}
use diene_go_auth_engine.Principal.{Principal, registered, registration_claim}
use diene_go_auth_engine.Token.{AccessToken}
use diene_go_auth_engine.Value.{text, Assoc, insert, lookup, lookup-insert}

-- The end of a round: ready, waiting for the caller's own onboarding step, or failed, and an error
-- is reported exactly then.
abbrev pub IsSettled : String → State → Type 0
IsSettled name st =
    (st.backend ≡ name)
    × ((st.phase ≡ phase_ready) × (st.failure ≡ none)
        ⊎ (st.phase ≡ phase_needs_onboarding) × (st.failure ≡ none)
        ⊎ (st.phase ≡ phase_error) × (st.failure ≢ none))

module _ {W : Type 0} (s : Sync W) (b : Backend W) where
  failed-IsSettled : (st : State) (e : Error) → st.backend ≡ b.name → IsSettled b.name (failed st e)
  unfolding failed
  failed-IsSettled st e n = ground (arith, n)

  settle-IsSettled :
      (st : State) (w : W)
      → st.backend ≡ b.name
      → st.failure ≡ none
      → IsSettled b.name (settle s st b w).0
  unfolding settle
  settle-IsSettled st w n f = elim (Option-cases b.configured) [
    | inl q ↦ ground arith
    | inr (configured, q) ↦
        let w' = (s.tokens.token st.backend w).1 in
        elim (Result-cases (s.tokens.token st.backend w).0) [
          | inr (e, q') ↦ ground (arith, failed-IsSettled st e)
          | inl (t, q') ↦ elim (Result-cases (configured t w').0) [
            | inr (e, q'') ↦ ground (arith, failed-IsSettled st e)
            | inl (done, q'') ↦ ground arith
          ]
        ]
  ]

module _ {W : Type 0} (slugify : String → String) (s : Sync W) (p : Principal) (b : Backend W) where
  confirm-IsSettled :
      (st : State) (w : W)
      → st.backend ≡ b.name
      → st.failure ≡ none
      → IsSettled b.name (confirm slugify s p b st w).0
  unfolding confirm failed
  confirm-IsSettled st w n f =
      let claim = registration_claim slugify b.name in
      let w1 = (s.claims.set_claim p.subject claim (text "true") w).1 in
      let w2 = (s.refresher.refresh p.subject w1).1 in
      let written = record st { claim_written = true } in
      elim (Result-cases (s.claims.set_claim p.subject claim (text "true") w).0) [
        | inr (e, q) ↦ ground arith
        | inl (u, q) ↦ elim (Result-cases (s.refresher.refresh p.subject w1).0) [
          | inr (e, q') ↦ ground (arith, failed-IsSettled s b written e)
          | inl (refreshed, q') ↦ elim (Bool-cases (registered slugify refreshed b.name)) [
            | inl there ↦ ground (arith, settle-IsSettled s b written w2)
            | inr lacks ↦ ground arith
          ]
        ]
      ]

  register-IsSettled :
      (token : AccessToken) (exists : Bool) (w : W)
      → IsSettled b.name (register slugify s p b token exists w).0
  unfolding register
  register-IsSettled token true w = confirm-IsSettled (initial b.name) w refl refl
  register-IsSettled token false w =
      elim (Result-cases (b.create token (build_registration p token) w).0) [
        | inr (e, q) ↦ ground (arith, failed-IsSettled s b (initial b.name) e)
        | inl (u, q) ↦ ground (
          arith,
          confirm-IsSettled (record (initial b.name) { created = true })
              (b.create token (build_registration p token) w).1,
        )
      ]

  -- Reconciling a backend leaves it ready, waiting for the caller's own step, or failed with its error.
  pub reconcile-IsSettled : (w : W) → IsSettled b.name (reconcile slugify s p b w).0
  unfolding reconcile
  reconcile-IsSettled w = elim (Bool-cases (registered slugify p b.name)) [
    | inl there ↦ ground (arith, settle-IsSettled s b (initial b.name) w)
    | inr lacks ↦
        let w1 = (s.tokens.token b.name w).1 in
        elim (Result-cases (s.tokens.token b.name w).0) [
          | inr (e, q) ↦ ground (arith, failed-IsSettled s b (initial b.name) e)
          | inl (token, q) ↦ elim (Result-cases (b.exists token w1).0) [
            | inr (e, q') ↦ ground (arith, failed-IsSettled s b (initial b.name) e)
            | inl (found, q') ↦ ground (arith, register-IsSettled token found (b.exists token w1).1)
          ]
        ]
  ]

module _ {W : Type 0} (slugify : String → String) (s : Sync W) (p : Principal) where
  HasState : Assoc State → String → Type 0
  HasState states name = (st : State) × (lookup name states ≡ some st) × IsSettled name st

  reconcile_all-keeps :
      (bs : List (Backend W)) (states : Assoc State) (w : W) (name : String)
      → HasState states name
      → HasState (reconcile_all slugify s p bs states w).0 name
  unfolding reconcile_all HasState
  reconcile_all-keeps [] states w name h = h
  reconcile_all-keeps (b ∷ bs) states w name (st, l, i) =
      let out = reconcile slugify s p b w in
      elim (Bool-cases (b.name == name)) [
        | inl same ↦ reconcile_all-keeps bs (insert b.name out.0 states) out.1 name (
          out.0,
          ground (arith, lookup-insert b.name name out.0 states),
          ground (arith, eq_iff b.name name, reconcile-IsSettled slugify s p b w),
        )
        | inr other ↦
            reconcile_all-keeps bs (insert b.name out.0 states) out.1 name
              (st, ground (arith, l, lookup-insert b.name name out.0 states), i)
      ]

  reconcile_all-covers :
      (bs : List (Backend W)) (states : Assoc State) (w : W)
      → All (λ b. HasState (reconcile_all slugify s p bs states w).0 b.name) bs
  unfolding reconcile_all HasState
  reconcile_all-covers [] states w = tt
  reconcile_all-covers (b ∷ bs) states w =
      let out = reconcile slugify s p b w in
      (
        reconcile_all-keeps bs (insert b.name out.0 states) out.1 b.name (
          out.0,
          ground (arith, lookup-insert b.name b.name out.0 states, eq_refl b.name),
          reconcile-IsSettled slugify s p b w,
        ),
        reconcile_all-covers bs (insert b.name out.0 states) out.1,
      )

  -- Run covers every backend: for an authenticated subject it never fails as a whole, whatever the
  -- seams answer, and its map holds for each registered backend a state under the backend's own name
  -- that is ready, waits for the caller's own onboarding step, or failed with its error.
  pub run_covers :
      (w : W)
      → p.subject ≢ ""
      → (states : Assoc State) × ((run_sync slugify s p w).0 ≡ ok states)
        × All
            (λ b. (st : State) × (lookup b.name states ≡ some st) × IsSettled b.name st)
            s.backends
  unfolding run_sync HasState
  run_covers w subject = (
    (reconcile_all slugify s p s.backends [] w).0,
    ground (arith, eq_false p.subject "" subject),
    reconcile_all-covers s.backends [] w,
  )
