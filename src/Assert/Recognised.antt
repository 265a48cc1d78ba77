-- ===== src/Assert/Recognised.antt =====
-- What the assertions of testhelper/assert.go accept: exactly the errors and the states that they
-- name, and so the problems that the engine raises.
use Prim.Native.String
use Prim.Native.String.append
use diene_go_auth_engine.Prelude.{
  String, Option, none, some, List, [], ◌∷◌, Any, ◌==◌, ◌≡◌, ◌↔◌, inl, inr, eq_iff, refl, arith,
  Option-cases, ap, if◌then◌else◌, sym, ◌∙◌, Bool, false, true,
}
use diene_go_auth_engine.Value.{Assoc, Value, lookup}
use diene_go_auth_engine.Problems.{
  Error, Problem, ProblemLibrary, ProblemType, Problems, auth_problem, envelope, new_problems, ok,
  problem_error, problem_types, raise,
}
use diene_go_auth_engine.Problems.Declared.{Registers, raises_declared}
use diene_go_auth_engine.Onboard.{
  Phase, State, phase_bootstrapping, phase_error, phase_needs_onboarding, phase_pre_onboarding,
  phase_ready,
}
use diene_go_auth_engine.Assert.{
  Texts, carried_problem, check_auth_problem, check_phase, check_problem_id, check_state,
  phase_text, problem_id,
}
use diene_go_auth_engine.Text.Last.{after_last, after_last-append}

-- CheckAuthProblem accepts an error exactly if it carries a problem with the id, and then answers
-- that problem.
pub check_auth_problem_iff :
    (texts : Texts) (e : Option Error) (id : String) (p : Problem)
    → (check_auth_problem texts e id ≡ ok p)
      ↔ ((x : Error) × (e ≡ some x) × (carried_problem x ≡ some p) × (problem_id p ≡ id))
unfolding check_auth_problem check_problem_id
check_auth_problem_iff texts none id p = ((λ h. cc), (λ (x, q, c, i). cc))
check_auth_problem_iff texts (some x) id p = elim (Option-cases (carried_problem x)) [
  | inl q ↦ ((λ h. absurd (ground arith)), (λ (y, is, c, i). absurd (ground arith)))
  | inr (carried, q) ↦ (
    (λ h. (
      x,
      refl,
      ground (arith, eq_iff (problem_id carried) id),
      ground (arith, eq_iff (problem_id carried) id),
    )),
    (λ (y, is, c, i). ground (arith, eq_iff (problem_id carried) id)),
  )
]

-- The phase that a text names
read_phase : String → Phase
read_phase s =
    if s == "pre-onboarding"
    then phase_pre_onboarding
    else if s == "bootstrapping"
    then phase_bootstrapping
    else if s == "needs-onboarding"
    then phase_needs_onboarding
    else if s == "ready"
    then phase_ready
    else phase_error

read_phase-phase_text : (a : Phase) → read_phase (phase_text a) ≡ a
unfolding read_phase
read_phase-phase_text phase_pre_onboarding = refl
read_phase-phase_text phase_bootstrapping = refl
read_phase-phase_text phase_needs_onboarding = refl
read_phase-phase_text phase_ready = refl
read_phase-phase_text phase_error = refl

phase_text-injective : (a b : Phase) → phase_text a ≡ phase_text b → a ≡ b
phase_text-injective a b h =
    sym (read_phase-phase_text a) ∙ ap read_phase h ∙ read_phase-phase_text b

-- CheckPhase accepts a round exactly if it has a state for the backend, and that in the phase.
pub check_phase_iff :
    (texts : Texts) (states : Assoc State) (backend : String) (want : Phase)
    → (check_phase texts states backend want ≡ none)
      ↔ ((state : State) × (lookup backend states ≡ some state) × (state.phase ≡ want))
unfolding check_phase check_state
check_phase_iff texts states backend want = elim (Option-cases (lookup backend states)) [
  | inl q ↦ ground arith
  | inr (state, q) ↦ ground (
    arith,
    eq_iff (phase_text state.phase) (phase_text want),
    phase_text-injective state.phase want,
  )
]

after_slash-last :
    (base id : String)
    → after_last b'/' id ≡ none
    → after_last b'/' (String.◌++◌ base (String.◌∷◌ "/" id)) ≡ some id
unfolding after_last
after_slash-last base id h = after_last-append b'/' base (String.◌∷◌ "/" id) id (ground arith)

-- Whether no id of the types has a slash in it
all_plain : List ProblemType → Bool
all_plain [] = true
all_plain (t ∷ ts) = elim (after_last b'/' t.id) [ none ↦ all_plain ts | some id ↦ false ]

all_plain-Any :
    (t : ProblemType) (ts : List ProblemType)
    → all_plain ts ≡ true
    → Any (λ u. u ≡ t) ts
    → after_last b'/' t.id ≡ none
unfolding all_plain
all_plain-Any t [] h a = absurd a
all_plain-Any t (u ∷ us) h a = elim (Option-cases (after_last b'/' u.id)) [
  | inr (id, q) ↦ absurd (ground arith)
  | inl q ↦ elim a [ inl e ↦ ground arith | inr later ↦ all_plain-Any t us (ground arith) later ]
]

declared_plain : (t : ProblemType) → Any (λ u. u ≡ t) problem_types → after_last b'/' t.id ≡ none
unfolding problem_types auth_problem after_last all_plain
declared_plain t a = all_plain-Any t problem_types refl a

module _ {P C : Type 0} (library : ProblemLibrary P C) (registers : Registers library)
    (texts : Texts) where
  -- With a registry that holds what it was made of, whose type URIs end in a slash and the id: a
  -- problem that the factory raises under a declared id passes
  -- CheckAuthProblem for an id exactly if it is that one.
  pub raised_is_recognised :
      (portal : P) (extra : List ProblemType) (p : Problems) (t : ProblemType)
      (base detail id : String) (payload : Assoc Value)
      → new_problems library portal extra ≡ ok p
      → Any (λ u. u ≡ t) problem_types
      → p.registry.type_uri_for t ≡ ok (String.◌++◌ base (String.◌∷◌ "/" t.id))
      → (check_auth_problem texts (some (raise p t.id detail payload)) id
          ≡ ok (envelope p t.id detail payload))
        ↔ (t.id ≡ id)
  unfolding raise problem_id
  raised_is_recognised portal extra p t base detail id payload made declared uri =
      let e = envelope p t.id detail payload in
      let is : problem_id e ≡ t.id = ground (
        arith,
        raises_declared library registers portal extra p t (String.◌++◌ base (String.◌∷◌ "/" t.id))
            detail payload made declared uri,
        after_slash-last base t.id (declared_plain t declared),
      ) in
      let both = check_auth_problem_iff texts (some (problem_error e)) id e in
      (
        (λ h. (let (x, q, c, i) = both.0 h in sym is ∙ i)),
        (λ h. both.1 (problem_error e, refl, refl, is ∙ h)),
      )
