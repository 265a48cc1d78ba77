-- ===== src/Fakes/Backends/Settled.antt =====
-- The fake backend of testhelper/backend.go keeps its row the way that a round relies on.
use diene_go_auth_engine.Prelude.{
  String, arith, inl, inr, ap, sym, Bool, List, [], false, true, ◌∷◌,
}
use diene_go_auth_engine.Fakes.Backends.{
  fake_backend, fake_configured, fake_create, fake_exists, fake_row,
}
use diene_go_auth_engine.Memory.{shift}
use diene_go_auth_engine.Memory.Laws.{queued}
use diene_go_auth_engine.Onboard.Rows.{IsCreateOrOk}
use diene_go_auth_engine.Principal.{or_zero}
use diene_go_auth_engine.Problems.{Error}

abbrev pub no_errors : List Error → Bool
no_errors [] = true
no_errors (e ∷ errors) = false

-- The fake backend, which holds the row of its one caller, has create-or-ok semantics, whatever errors
-- are queued: Exists answers its row, a Create that succeeds leaves the row there, one for a row that
-- is there already succeeds where no error is queued for it, and nothing takes the row away.
pub fake_backend-IsCreateOrOk :
    (name : String)
    → IsCreateOrOk
        (fake_backend name)
        (λ t. "")
        (λ b who. b.exists)
        (λ b. no_errors b.create_errors)
unfolding fake_exists fake_create fake_configured fake_row shift
fake_backend-IsCreateOrOk name = record {
  exists-row = λ t w x h. elim (queued w.exists_errors) [
    | inl q ↦ ground arith
    | inr (e, es, q) ↦ ground arith
  ];
  row-exists = λ t w who. elim (queued w.exists_errors) [
    | inl q ↦ ground arith
    | inr (e, es, q) ↦ ground arith
  ];
  row-create = λ t r w h. elim (queued w.create_errors) [
    | inl q ↦ ground arith
    | inr (e, es, q) ↦ ground arith
  ];
  row-create_keeps = λ t r w who h. elim (queued w.create_errors) [
    | inl q ↦ ground arith
    | inr (e, es, q) ↦ ground arith
  ];
  create_or_ok = λ t r w h up. elim (queued w.create_errors) [
    | inl q ↦ ground arith
    | inr (e, es, q) ↦ absurd (ground arith)
  ];
  row-configured = λ t w who c h. sym (ap (λ o. (or_zero fake_configured o t w).1.exists) h);
}
