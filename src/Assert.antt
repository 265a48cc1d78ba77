-- ===== src/Assert.antt =====
-- testhelper/assert.go: the assertions on auth problems and onboarding phases. The texts of an error
-- and of a problem are the errors-problems library's, and parameters here.
pub mod Recognised
use Prim.Native.Char.{code}
use Prim.Native.String
use diene_go_auth_engine.Prelude.{
  String, Option, none, some, List, [], ◌∷◌, Bool, true, false, not, ◌==◌, nat_eq, if◌then◌else◌,
  arith,
}
use diene_go_auth_engine.Problems.{
  Error, Problem, Result, err, ok, ownership_denied, plain, problem_error, wrapped, envelope,
}
use diene_go_auth_engine.Onboard.{
  Phase, State, phase_bootstrapping, phase_error, phase_needs_onboarding, phase_pre_onboarding,
  phase_ready,
}
use diene_go_auth_engine.Value.{Assoc, lookup}
use diene_go_auth_engine.Text.Last.{after_last}
use diene_go_auth_engine.Principal.{or_zero}

-- The TestingT seam: Helper, and Fatalf with its format and arguments
pub record TestingT (W : Type 0) : Type 0 where
  pub helper : W → W
  pub fatalf : String → List String → W → W

-- How an error and a problem read
pub record Texts : Type 0 where
  pub error_text : Error → String
  pub problem_text : Problem → String

infixr 60 ◌⧺◌
abbrev ◌⧺◌ : String → String → String
s ⧺ t = String.◌++◌ s t

-- errors.As(err, &carried) for a *problem.Error
abbrev pub carried_problem : Error → Option Problem
carried_problem (problem_error p) = some p
carried_problem (wrapped p cause) = some p
carried_problem (plain s) = none

-- ProblemID
unfoldable pub problem_id : Problem → String
unfolding after_last
problem_id envelope = or_zero envelope.type_uri (after_last b'/' envelope.type_uri)

-- The problem that CheckAuthProblem recovered from an error
unfoldable pub check_problem_id : String → Problem → Result Problem
unfolding problem_id
check_problem_id id carried =
    if not (problem_id carried == id)
    then err (plain ("expected auth problem " ⧺ id ⧺ ", got " ⧺ problem_id carried))
    else ok carried

-- Phase's text
abbrev pub phase_text : Phase → String
phase_text phase_pre_onboarding = "pre-onboarding"
phase_text phase_bootstrapping = "bootstrapping"
phase_text phase_needs_onboarding = "needs-onboarding"
phase_text phase_ready = "ready"
phase_text phase_error = "error"

-- The problem that AssertAuthProblem returns; a Fatalf that comes back leaves the zero problem.
abbrev pub zero_problem : Problem
zero_problem = record {
  type_uri = "";
  title = "";
  status = 0;
  detail = none;
  recoverable = false;
  payload = [];
}

module _ (texts : Texts) where
  -- CheckAuthProblem
  unfoldable pub check_auth_problem : Option Error → String → Result Problem
  unfolding check_problem_id
  check_auth_problem none id = err (plain ("expected an auth problem " ⧺ id ⧺ ", got no error"))
  check_auth_problem (some e) id = elim (carried_problem e) [
    | none ↦
        err
          (plain ("expected an auth problem " ⧺ id ⧺ ", got a plain error: " ⧺ texts.error_text e))
    | some carried ↦ check_problem_id id carried
  ]

  -- `message += " (" + state.Err.Error() + ")"`
  abbrev with_failure : Option Error → String → String
  with_failure none message = message
  with_failure (some e) message = message ⧺ " (" ⧺ texts.error_text e ⧺ ")"

  -- CheckPhase on the state of a backend that the round has
  unfoldable pub check_state : String → Phase → State → Option Error
  check_state backend want state =
      if not (phase_text state.phase == phase_text want)
      then some (
          plain (
            with_failure state.failure (
              "expected backend "
              ⧺ backend
              ⧺ " in phase "
              ⧺ phase_text want
              ⧺ ", got "
              ⧺ phase_text state.phase)))
      else none

  -- CheckPhase
  unfoldable pub check_phase : Assoc State → String → Phase → Option Error
  unfolding check_state lookup
  check_phase states backend want = elim (lookup backend states) [
    | none ↦ some (plain ("onboarding round has no state for backend " ⧺ backend))
    | some state ↦ check_state backend want state
  ]

  module _ {W : Type 0} (t : TestingT W) where
    -- AssertAuthProblem
    unfoldable pub assert_auth_problem : Option Error → String → W → Problem × W
    unfolding check_auth_problem
    assert_auth_problem e id w = elim (check_auth_problem e id) [
      | ok envelope ↦ (envelope, t.helper w)
      | err failure ↦ (zero_problem, t.fatalf "%s" (texts.error_text failure ∷ []) (t.helper w))
    ]

    -- AssertNoAuthProblem
    unfoldable pub assert_no_auth_problem : Option Error → W → W
    unfolding problem_id
    assert_no_auth_problem none w = t.helper w
    assert_no_auth_problem (some e) w = elim (carried_problem e) [
      | some carried ↦
          t.fatalf "expected no auth problem, got %s: %s"
            (problem_id carried ∷ texts.problem_text carried ∷ []) (t.helper w)
      | none ↦ t.fatalf "expected no auth problem, got %s" (texts.error_text e ∷ []) (t.helper w)
    ]

    -- AssertOwnershipDenied
    unfoldable pub assert_ownership_denied : Option Error → W → Problem × W
    unfolding assert_auth_problem
    assert_ownership_denied e w = assert_auth_problem e ownership_denied (t.helper w)

    -- AssertPhase
    unfoldable pub assert_phase : Assoc State → String → Phase → W → W
    unfolding check_phase
    assert_phase states backend want w = elim (check_phase states backend want) [
      | none ↦ t.helper w
      | some failure ↦ t.fatalf "%s" (texts.error_text failure ∷ []) (t.helper w)
    ]
