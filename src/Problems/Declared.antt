-- ===== src/Problems/Declared.antt =====
-- The problems that the factory of lib/authengine/problems.go raises are the declared ones.
use diene_go_auth_engine.Prelude.{String, some, List, [], ◌∷◌, ◌++◌, ◌≡◌, Any, arith, inl, inr}
use diene_go_auth_engine.Value.{Assoc, Value}
use diene_go_auth_engine.Problems.{
  ProblemLibrary, ProblemType, Problems, Registry, envelope, new_problems, ok, problem_error,
  problem_types, raise,
}
use diene_go_auth_engine.Effect.{Result-cases}

-- The registry of the errors-problems library holds each type that it was made of under its id, and
-- is not made of types two of which share one.
abbrev pub Registers : {P C : Type 0} → ProblemLibrary P C → Type 0
Registers {P} library =
    (portal : P) (types : List ProblemType) (registry : Registry) (t : ProblemType)
    → library.new_registry portal types ≡ ok registry
    → Any (λ u. u ≡ t) types
    → registry.lookup t.id ≡ some t

Any-append :
    (t : ProblemType) (xs ys : List ProblemType) → Any (λ u. u ≡ t) xs → Any (λ u. u ≡ t) (xs ++ ys)
Any-append t [] ys h = absurd h
Any-append t (x ∷ xs) ys (inl e) = inl e
Any-append t (x ∷ xs) ys (inr h) = inr (Any-append t xs ys h)

module _ {P C : Type 0} (library : ProblemLibrary P C) (registers : Registers library) where
  -- With a registry that holds what it was made of: a factory that NewProblems made, whatever types
  -- the consumer added, raises each of the engine's declared problems under its own type URI, title,
  -- status and recoverability, with the given detail and payload, where the URI can be built.
  pub raises_declared :
      (portal : P) (extra : List ProblemType) (p : Problems) (t : ProblemType) (uri detail : String)
      (payload : Assoc Value)
      → new_problems library portal extra ≡ ok p
      → Any (λ u. u ≡ t) problem_types
      → p.registry.type_uri_for t ≡ ok uri
      → raise p t.id detail payload
        ≡ problem_error (record {
          type_uri = uri;
          title = t.title;
          status = t.status;
          detail = some detail;
          recoverable = t.recoverable;
          payload = payload;
        })
  unfolding new_problems raise envelope
  raises_declared portal extra p t uri detail payload made declared built =
      elim (Result-cases (library.new_registry portal (problem_types ++ extra))) [
        | inr (e, q) ↦ absurd (ground arith)
        | inl (registry, q) ↦ ground (
          arith,
          registers portal (problem_types ++ extra) registry t q
              (Any-append t problem_types extra declared),
        )
      ]
