-- ===== src/Tests/Rounds.antt =====
-- Onboarding rounds: a caller who is registered, and one whom the round registers.
use diene_go_auth_engine.Prelude.{
  String, none, some, [], ◌∷◌, true, false, ◌≡◌, ◌≢◌, ◌⊎◌, refl, All, arith, Bool, eq_iff, eq_refl,
}
use diene_go_auth_engine.Value.{Assoc, insert, lookup, lookup-insert, text}
use diene_go_auth_engine.Onboard.{
  Backend, State, Sync, attempt, confirm, phase_error, phase_ready, reconcile, register, run_sync,
  settle,
}
use diene_go_auth_engine.Onboard.Phases.{IsSettled, run_covers}
use diene_go_auth_engine.Principal.{Principal, registered, registration_claim}
use diene_go_auth_engine.Tests.Fixtures.{alice, minted, problems}
use diene_go_auth_engine.Claims.{claim, claims_flag}
use diene_go_auth_engine.Onboard.Progress.{ready_is_verified}
use diene_go_auth_engine.Problems.{ok}
use diene_go_auth_engine.Text.{replace_dashes}
use diene_go_auth_engine.Onboard.Rows.{IsCreateOrOk, SparesRow, run_rounds}
use diene_go_auth_engine.Onboard.Once.{registers_once}
use diene_go_auth_engine.Token.{AccessToken}

abbrev slugify : String → String
slugify name = name

-- Alice with the registration claim of zinc
abbrev registered_alice : Principal
registered_alice = record alice { claims = ("zinc", text "true") ∷ [] }

abbrev backend : Backend (Unit {0})
backend = record {
  name = "zinc";
  exists = λ token w. (ok false, w);
  create = λ token registration w. (ok tt, w);
  configured = none;
}

abbrev sync : Sync (Unit {0})
sync = record {
  backends = backend ∷ [];
  claims = record { set_claim = λ subject name value w. (ok tt, w) };
  refresher = record { refresh = λ subject w. (ok registered_alice, w) };
  tokens = record { token = λ name w. (ok minted, w) };
  problems = problems;
}

named : alice.subject ≢ ""
named h = cc

run_covers_example :
    (states : Assoc State) × ((run_sync slugify sync alice tt).0 ≡ ok states)
    × All
        (λ b. (st : State) × (lookup b.name states ≡ some st) × IsSettled b.name st)
        (backend ∷ [])
run_covers_example = run_covers slugify sync alice tt named

round-ready : (reconcile slugify sync alice backend tt).0.phase ≡ phase_ready
unfolding reconcile registered claims_flag claim lookup registration_claim replace_dashes attempt
    register confirm settle
round-ready = refl

round-finished : (reconcile slugify sync alice backend tt).0.phase ≢ phase_error
round-finished h = ground (arith, h, round-ready)

ready_is_verified_example :
    (registered slugify alice "zinc" ≡ true)
    ⊎ ((reconcile slugify sync alice backend tt).0.claim_written ≡ true)
      × ((w : Unit {0}) × (refreshed : Principal) × ((sync.claims.set_claim "alice"
              (registration_claim slugify "zinc")
              (text "true")
              w).0
            ≡ ok tt)
          × ((sync.refresher.refresh "alice"
                (sync.claims.set_claim "alice"
                  (registration_claim slugify "zinc")
                  (text "true")
                  w).1).0
              ≡ ok refreshed)
          × (registered slugify refreshed "zinc" ≡ true))
ready_is_verified_example = ready_is_verified slugify sync alice backend tt round-finished

-- A backend that keeps the rows of its callers, who are known by the values of their tokens
abbrev Rows : Type 0
Rows = Assoc (Unit {0})

abbrev caller_of : AccessToken → String
caller_of t = t.value

abbrev has_row : Rows → String → Bool
has_row rows who = elim (lookup who rows) [ none ↦ false | some u ↦ true ]

abbrev rows_backend : Backend Rows
rows_backend = record {
  name = "zinc";
  exists = λ t rows. (ok (has_row rows (caller_of t)), rows);
  create = λ t registration rows. (ok tt, insert (caller_of t) tt rows);
  configured = none;
}

rows_backend-IsCreateOrOk : IsCreateOrOk rows_backend caller_of has_row (λ rows. true)
rows_backend-IsCreateOrOk = record {
  exists-row = λ t rows x h. ground arith;
  row-exists = λ t rows who. refl;
  row-create = λ t r rows h.
      ground (arith, lookup-insert (caller_of t) (caller_of t) tt rows, eq_refl (caller_of t));
  row-create_keeps = λ t r rows who h.
      ground (arith, lookup-insert (caller_of t) who tt rows, eq_iff (caller_of t) who);
  create_or_ok = λ t r rows h up. refl;
  row-configured = λ t rows who c h. absurd (ground arith);
}

-- The round of a caller whose tokens have a value
abbrev sync_of : String → Sync Rows
sync_of value = record {
  backends = rows_backend ∷ [];
  claims = record { set_claim = λ subject name v w. (ok tt, w) };
  refresher = record { refresh = λ subject w. (ok registered_alice, w) };
  tokens = record { token = λ name w. (ok (record minted { value = value }), w) };
  problems = problems;
}

sync_of-SparesRow : (value : String) → SparesRow (sync_of value) has_row
sync_of-SparesRow value = record {
  row-token = λ name w who. refl;
  row-set_claim = λ subject name v w who. refl;
  row-refresh = λ subject w who. refl;
}

alice-created : (reconcile slugify (sync_of "a") alice rows_backend []).0.created ≡ true
unfolding reconcile registered claims_flag claim lookup registration_claim replace_dashes attempt
    register confirm settle insert
alice-created = refl

-- Alice is registered, then another caller is, and then Alice comes again.
registers_once_example :
    (reconcile slugify (sync_of "a") alice rows_backend (
      run_rounds slugify rows_backend
        ((sync_of "b", alice) ∷ [])
        (reconcile slugify (sync_of "a") alice rows_backend []).1)).0.created
    ≡ false
registers_once_example =
    registers_once slugify rows_backend caller_of has_row (λ rows. true) rows_backend-IsCreateOrOk
      (sync_of "a") (sync_of "a") alice alice [] ((sync_of "b", alice) ∷ [])
      (record minted { value = "a" }) (record minted { value = "a" }) (sync_of-SparesRow "a")
      (sync_of-SparesRow "a") (sync_of-SparesRow "b", tt) refl refl refl alice-created
