-- ===== src/Guard/Checker.antt =====
-- ClaimScopeChecker (lib/authengine/guard.go): its loops decide membership of the granted values.
use diene_go_auth_engine.Prelude.{
  String, ◌≡◌, refl, ◌↔◌, ◌≢◌, true, List, [], ◌∷◌, arith, contains_iff, All, Any,
}
use diene_go_auth_engine.Principal.{Principal}
use diene_go_auth_engine.Guard.{
  claim_values, any_granted, all_granted, has_any_value, has_all_values,
}

abbrev pub Holds : List String → String → Type 0
Holds granted v = Any (λ x. x ≡ v) granted

any_granted_iff :
    (granted values : List String)
    → (any_granted granted values ≡ true) ↔ Any (Holds granted) values
unfolding any_granted
any_granted_iff granted [] = ((λ h. cc), (λ h. absurd h))
any_granted_iff granted (v ∷ values) =
    ground (arith, contains_iff granted v, any_granted_iff granted values)

all_granted_iff :
    (granted values : List String)
    → (all_granted granted values ≡ true) ↔ All (Holds granted) values
unfolding all_granted
all_granted_iff granted [] = ((λ h. tt), (λ h. refl))
all_granted_iff granted (v ∷ values) =
    ground (arith, contains_iff granted v, all_granted_iff granted values)

-- At least one of the required values is granted; nothing required is never satisfied.
pub has_any_value_iff :
    (p : Principal) (field : String) (values : List String)
    → (has_any_value p field values ≡ true) ↔ Any (Holds (claim_values p field)) values
unfolding has_any_value
has_any_value_iff p field values = any_granted_iff (claim_values p field) values

-- Every required value is granted, and there is one.
pub has_all_values_iff :
    (p : Principal) (field : String) (values : List String)
    → (has_all_values p field values ≡ true)
      ↔ ((values ≢ []) × All (Holds (claim_values p field)) values)
unfolding has_all_values
has_all_values_iff p field [] = ((λ h. cc), (λ h. absurd (h.0 refl)))
has_all_values_iff p field (v ∷ values) =
    let iff = all_granted_iff (claim_values p field) (v ∷ values) in
    ((λ h. ((λ e. cc), iff.0 h)), (λ h. iff.1 h.1))
