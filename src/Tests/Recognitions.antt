-- ===== src/Tests/Recognitions.antt =====
-- A raised problem, recognised by its id, with a registry that refuses two types of one id.
use Prim.Native.String
use diene_go_auth_engine.Prelude.{
  String, Option, none, some, List, [], ◌∷◌, Bool, true, false, not, ◌&&◌, ◌||◌, ◌==◌, ◌≡◌, ◌↔◌,
  Any, inl, inr, refl, arith, eq_iff, if◌then◌else◌, Bool-cases,
}
use diene_go_auth_engine.Problems.{
  ProblemLibrary, ProblemType, Problems, Registry, auth_problem, envelope, err, new_problems, ok,
  plain, problem_types, raise,
}
use diene_go_auth_engine.Problems.Declared.{Registers}
use diene_go_auth_engine.Assert.{Texts, check_auth_problem}
use diene_go_auth_engine.Assert.Recognised.{raised_is_recognised}
use diene_go_auth_engine.Tests.Fixtures.{registry}

abbrev held : List ProblemType → String → Option ProblemType
held [] id = none
held (t ∷ ts) id = if t.id == id then some t else held ts id

abbrev taken : String → List ProblemType → Bool
taken id [] = false
taken id (t ∷ ts) = t.id == id || taken id ts

abbrev unique : List ProblemType → Bool
unique [] = true
unique (t ∷ ts) = not (taken t.id ts) && unique ts

taken-Any : (t : ProblemType) (ts : List ProblemType) → Any (λ u. u ≡ t) ts → taken t.id ts ≡ true
taken-Any t [] a = absurd a
taken-Any t (u ∷ us) (inl e) = ground (arith, eq_iff u.id t.id)
taken-Any t (u ∷ us) (inr a) = ground (arith, taken-Any t us a)

held-Any :
    (t : ProblemType) (ts : List ProblemType)
    → unique ts ≡ true
    → Any (λ u. u ≡ t) ts
    → held ts t.id ≡ some t
held-Any t [] h a = absurd a
held-Any t (u ∷ us) h (inl e) = ground (arith, eq_iff u.id t.id)
held-Any t (u ∷ us) h (inr a) =
    ground (arith, eq_iff u.id t.id, taken-Any t us a, held-Any t us (ground arith) a)

-- The portal is the part of a type URI before the slash and the id.
abbrev made_of : String → List ProblemType → Registry
made_of portal types = record {
  lookup = held types;
  type_uri_for = λ t. ok (String.◌++◌ portal (String.◌∷◌ "/" t.id));
  from_object = registry.from_object;
}

abbrev library : ProblemLibrary String (Unit {0})
library = record {
  new_registry =
      λ portal types. if unique types then ok (made_of portal types) else err (plain "twice");
  portal = λ r. "https://portal";
  entries = λ r. [];
  new_catalog = λ portal. tt;
  add_type = λ c t. ok c;
}

library-Registers : Registers library
library-Registers portal types r t h a = elim (Bool-cases (unique types)) [
  | inr twice ↦ absurd (ground arith)
  | inl once ↦ ground (arith, held-Any t types once a)
]

abbrev factory : Problems
factory = record { registry = made_of "https://portal" problem_types }

abbrev expired_type : ProblemType
expired_type = auth_problem "token-expired" "Token expired" 401 true

abbrev texts : Texts
texts = record { error_text = λ e. "error"; problem_text = λ p. p.title }

factory-made : new_problems library "https://portal" [] ≡ ok factory
unfolding new_problems problem_types auth_problem
factory-made = refl

expired-declared : Any (λ u. u ≡ expired_type) problem_types
unfolding problem_types auth_problem
expired-declared = inr (inl refl)

raised_is_recognised_example :
    (check_auth_problem texts (some (raise factory "token-expired" "late" [])) "token-expired"
      ≡ ok (envelope factory "token-expired" "late" []))
    ↔ (expired_type.id ≡ "token-expired")
unfolding auth_problem
raised_is_recognised_example =
    raised_is_recognised library library-Registers texts "https://portal" [] factory expired_type
      "https://portal" "late" "token-expired" [] factory-made expired-declared refl
