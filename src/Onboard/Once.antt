-- ===== src/Onboard/Once.antt =====
-- A backend with create-or-ok semantics is registered by one round of lib/onboard/sync.go, not by two.
use diene_go_auth_engine.Prelude.{
  String, Bool, true, false, arith, ◌≡◌, inl, inr, Bool-cases, All, List, refl,
}
use diene_go_auth_engine.Onboard.{
  Backend, State, Sync, build_registration, confirm, initial, reconcile, register,
}
use diene_go_auth_engine.Onboard.Rows.{
  IsCreateOrOk, SparesRow, confirm-row, run_rounds, run_rounds-row,
}
use diene_go_auth_engine.Onboard.Progress.{created_only_when_absent}
use diene_go_auth_engine.Principal.{Principal}
use diene_go_auth_engine.Problems.{ok}
use diene_go_auth_engine.Token.{AccessToken}
use diene_go_auth_engine.Cache.{token}

module _ {W : Type 0} (slugify : String → String) (b : Backend W) (caller : AccessToken → String)
    (row : W → String → Bool) (up : W → Bool) (backend : IsCreateOrOk b caller row up) where
  -- A round that reports `created` leaves the row of its token's caller there.
  created-row :
      (s : Sync W) (p : Principal) (w : W) (t : AccessToken)
      → SparesRow s row
      → (s.tokens.token b.name w).0 ≡ ok t
      → (reconcile slugify s p b w).0.created ≡ true
      → row (reconcile slugify s p b w).1 (caller t) ≡ true
  unfolding reconcile register
  created-row s p w t seams own h =
      let (lacks, (token, et, ef, ec)) = created_only_when_absent slugify s p b w h in
      let w2 = (b.exists token (s.tokens.token b.name w).1).1 in
      let w3 = (b.create token (build_registration p token) w2).1 in
      ground (
        arith,
        lacks,
        et,
        own,
        ef,
        ec,
        backend.row-create token (build_registration p token) w2,
        confirm-row slugify b caller row up backend s p seams (caller token)
            (record (initial b.name) { created = true }) w3,
      )

  -- A row that appears between Exists and Create does not stop a round: where the backend is up, the
  -- round goes on to write the claim, whatever Exists had answered.
  raced_create-confirms :
      (s : Sync W) (p : Principal) (t : AccessToken) (found : Bool) (w : W)
      → row w (caller t) ≡ true
      → up w ≡ true
      → (st : State) × (w' : W) × (row w' (caller t) ≡ true)
        × (register slugify s p b t found w ≡ confirm slugify s p b st w')
  unfolding register
  raced_create-confirms s p t true w there runs = (initial b.name, w, there, refl)
  raced_create-confirms s p t false w there runs =
      let done = backend.create_or_ok t (build_registration p t) w there runs in
      (
        record (initial b.name) { created = true },
        (b.create t (build_registration p t) w).1,
        backend.row-create t (build_registration p t) w done,
        ground (arith, done),
      )

  -- With a backend that keeps a row for each caller with create-or-ok semantics, and rounds whose seams
  -- leave the rows alone: once a round has reported that it created the row, and after any rounds of
  -- any callers behind it, failed ones too, no round whose token is of the same caller as the
  -- first one's reports that again.
  pub registers_once :
      (s s' : Sync W) (p q : Principal) (w : W) (between : List (Sync W × Principal))
      (t t' : AccessToken)
      → SparesRow s row
      → SparesRow s' row
      → All (λ r. SparesRow r.0 row) between
      → (s.tokens.token b.name w).0 ≡ ok t
      → (s'.tokens.token b.name (run_rounds slugify b between (reconcile slugify s p b w).1)).0
        ≡ ok t'
      → caller t' ≡ caller t
      → (reconcile slugify s p b w).0.created ≡ true
      → (reconcile slugify s' q b
          (run_rounds slugify b between (reconcile slugify s p b w).1)).0.created
        ≡ false
  registers_once s s' p q w between t t' seams seams' spared own own' same first =
      let w' = run_rounds slugify b between (reconcile slugify s p b w).1 in
      let there =
        run_rounds-row slugify b caller row up backend between (reconcile slugify s p b w).1
          (caller t) spared (created-row s p w t seams own first) in
      elim (Bool-cases (reconcile slugify s' q b w').0.created) [
        | inr no_row ↦ no_row
        | inl again ↦
            let (lacks, (token, et, ef, ec)) = created_only_when_absent slugify s' q b w' again in
            let w1 = (s'.tokens.token b.name w').1 in
            absurd (
              ground (
                arith,
                et,
                own',
                same,
                there,
                backend.exists-row token w1 false ef,
                seams'.row-token b.name w' (caller t),
              ))
      ]
