-- ===== src/Onboard/Progress.antt =====
-- What a state of the round of lib/onboard/sync.go tells: a backend is not ready on an unverified
-- claim, and `created` and `claimWritten` report what was done.
use diene_go_auth_engine.Prelude.{
  String, Bool, true, false, arith, ◌≡◌, ◌⊎◌, inl, inr, ◌≢◌, Bool-cases, Option-cases,
}
use diene_go_auth_engine.Onboard.{
  Backend, State, Sync, confirm, failed, phase_error, settle, build_registration, initial,
  reconcile, register,
}
use diene_go_auth_engine.Principal.{Principal, registered, registration_claim}
use diene_go_auth_engine.Effect.{Result-cases, Eff}
use diene_go_auth_engine.Problems.{ok}
use diene_go_auth_engine.Value.{text}
use diene_go_auth_engine.Token.{AccessToken}

module _ {W : Type 0} (slugify : String → String) (s : Sync W) (p : Principal) (b : Backend W) where
  -- The claim's write to the identity provider, in a world
  abbrev write_claim : Eff W (Unit {0})
  write_claim = s.claims.set_claim p.subject (registration_claim slugify b.name) (text "true")

  -- The claim was written, and a refresh right after it showed the claim.
  abbrev Verified : Type 0
  Verified =
      (w : W) × (refreshed : Principal) × ((write_claim w).0 ≡ ok tt)
      × ((s.refresher.refresh p.subject (write_claim w).1).0 ≡ ok refreshed)
      × (registered slugify refreshed b.name ≡ true)

  settle-keeps :
      (st : State) (w : W)
      → ((settle s st b w).0.created ≡ st.created)
        × ((settle s st b w).0.claim_written ≡ st.claim_written)
  unfolding settle failed
  settle-keeps st w = elim (Option-cases b.configured) [
    | inl q ↦ ground arith
    | inr (configured, q) ↦
        let w' = (s.tokens.token st.backend w).1 in
        elim (Result-cases (s.tokens.token st.backend w).0) [
          | inr (e, q') ↦ ground arith
          | inl (t, q') ↦ elim (Result-cases (configured t w').0) [
            | inr (e, q'') ↦ ground arith
            | inl (done, q'') ↦ ground arith
          ]
        ]
  ]

  confirm-Verified :
      (st : State) (w : W)
      → (confirm slugify s p b st w).0.phase ≢ phase_error
      → ((confirm slugify s p b st w).0.claim_written ≡ true) × Verified
  unfolding confirm failed
  confirm-Verified st w h =
      let w1 = (write_claim w).1 in
      elim (Result-cases (write_claim w).0) [
        | inr (e, q) ↦ ground arith
        | inl (u, q) ↦ elim (Result-cases (s.refresher.refresh p.subject w1).0) [
          | inr (e, q') ↦ ground arith
          | inl (refreshed, q') ↦ elim (Bool-cases (registered slugify refreshed b.name)) [
            | inl there ↦ (
              ground (
                arith,
                settle-keeps (record st { claim_written = true })
                    (s.refresher.refresh p.subject w1).1,
              ),
              (w, refreshed, ground (arith, q), q', there),
            )
            | inr lacks ↦ ground arith
          ]
        ]
      ]

  confirm-created : (st : State) (w : W) → (confirm slugify s p b st w).0.created ≡ st.created
  unfolding confirm failed
  confirm-created st w =
      let w1 = (write_claim w).1 in
      elim (Result-cases (write_claim w).0) [
        | inr (e, q) ↦ ground arith
        | inl (u, q) ↦ elim (Result-cases (s.refresher.refresh p.subject w1).0) [
          | inr (e, q') ↦ ground arith
          | inl (refreshed, q') ↦ elim (Bool-cases (registered slugify refreshed b.name)) [
            | inl there ↦ ground (
              arith,
              settle-keeps (record st { claim_written = true })
                  (s.refresher.refresh p.subject w1).1,
            )
            | inr lacks ↦ ground arith
          ]
        ]
      ]

  register-Verified :
      (token : AccessToken) (found : Bool) (w : W)
      → (register slugify s p b token found w).0.phase ≢ phase_error
      → ((register slugify s p b token found w).0.claim_written ≡ true) × Verified
  unfolding register failed
  register-Verified token true w h = confirm-Verified (initial b.name) w h
  register-Verified token false w h =
      let w1 = (b.create token (build_registration p token) w).1 in
      elim (Result-cases (b.create token (build_registration p token) w).0) [
        | inr (e, q) ↦ ground arith
        | inl (u, q) ↦
            let (c, v) =
              confirm-Verified (record (initial b.name) { created = true }) w1 (ground arith) in
            (ground (arith, c), v)
      ]

  -- A backend that does not end in error is registered: the caller's claims already said so, or the
  -- round wrote the registration claim, which it reports, and a refresh after that write showed it.
  pub ready_is_verified :
      (w : W)
      → (reconcile slugify s p b w).0.phase ≢ phase_error
      → (registered slugify p b.name ≡ true)
        ⊎ ((reconcile slugify s p b w).0.claim_written ≡ true) × Verified
  unfolding reconcile failed
  ready_is_verified w h = elim (Bool-cases (registered slugify p b.name)) [
    | inl there ↦ inl there
    | inr lacks ↦
        let w1 = (s.tokens.token b.name w).1 in
        elim (Result-cases (s.tokens.token b.name w).0) [
          | inr (e, q) ↦ ground arith
          | inl (token, q) ↦ elim (Result-cases (b.exists token w1).0) [
            | inr (e, q') ↦ ground arith
            | inl (found, q') ↦
                let (c, v) = register-Verified token found (b.exists token w1).1 (ground arith) in
                inr (ground (arith, c), v)
          ]
        ]
  ]

  -- A state that says `created` tells the truth: the caller's claims lacked the backend, the
  -- backend answered that it held no row under the token resolved for it, and it then accepted the
  -- registration built from the caller and that token.
  pub created_only_when_absent :
      (w : W)
      → (reconcile slugify s p b w).0.created ≡ true
      → (registered slugify p b.name ≡ false)
        × ((token : AccessToken) × ((s.tokens.token b.name w).0 ≡ ok token)
            × ((b.exists token (s.tokens.token b.name w).1).0 ≡ ok false)
            × ((b.create token
                  (build_registration p token)
                  (b.exists token (s.tokens.token b.name w).1).1).0
                ≡ ok tt))
  unfolding reconcile register failed
  created_only_when_absent w h = elim (Bool-cases (registered slugify p b.name)) [
    | inl there ↦ ground (arith, settle-keeps (initial b.name) w)
    | inr lacks ↦
        let w1 = (s.tokens.token b.name w).1 in
        elim (Result-cases (s.tokens.token b.name w).0) [
          | inr (e, q) ↦ ground arith
          | inl (token, q) ↦
              let w2 = (b.exists token w1).1 in
              elim (Result-cases (b.exists token w1).0) [
                | inr (e, q') ↦ ground arith
                | inl (found, q') ↦
                    elim (Result-cases (b.create token (build_registration p token) w2).0) [
                      | inr (e, q'') ↦ ground (arith, confirm-created (initial b.name) w2)
                      | inl (u, q'') ↦ (
                        lacks,
                        (
                          token,
                          q,
                          ground (arith, confirm-created (initial b.name) w2),
                          ground arith,
                        ),
                      )
                    ]
              ]
        ]
  ]
