-- ===== src/Guard/Policies.antt =====
-- The named claim policies of lib/authengine/policy.go: they fail closed.
use diene_go_auth_engine.Prelude.{
  String, ◌≡◌, refl, ◌↔◌, ◌≢◌, ◌⊎◌, inl, inr, none, some, [], ◌∷◌, arith, eq_iff, All, Any,
  Option-cases, Bool-cases, sym, ◌∙◌, false≢true, ◌==◌, true, false,
}
use diene_go_auth_engine.Value.{text, strings, lookup}
use diene_go_auth_engine.Problems.{ok, err, raise, ownership_denied, policy_unknown}
use diene_go_auth_engine.Principal.{Principal}
use diene_go_auth_engine.Guard.{
  Guard, Policy, PolicySet, policy_names, policy_any, policy_all, claim_values, claim_scope_checker,
  satisfies, policy_denial, guard_policy,
}
use diene_go_auth_engine.Guard.Checker.{Holds, has_any_value_iff, has_all_values_iff}
use diene_go_auth_engine.Guard.Logged.{IsLogged, log-IsLogged}
use diene_go_auth_engine.Effect.{fail}

-- What a declared policy asks of a caller: an unknown quantifier is never satisfied.
abbrev pub Satisfied : Principal → Policy → Type 0
Satisfied p d =
    (d.kind ≡ policy_any) × Any (Holds (claim_values p d.field)) d.target
    ⊎ (d.kind ≡ policy_all) × (d.target ≢ []) × All (Holds (claim_values p d.field)) d.target

any-ne-all : ("any" == "all") ≡ false
any-ne-all = refl

satisfies_iff :
    {W : Type 0} (g : Guard W) (p : Principal) (d : Policy)
    → g.checker ≡ claim_scope_checker
    → (satisfies g p d ≡ true) ↔ Satisfied p d
unfolding satisfies
satisfies_iff g p d e = ground (
  arith,
  e,
  any-ne-all,
  eq_iff d.kind policy_any,
  eq_iff d.kind policy_all,
  eq_iff "any" "all",
  has_any_value_iff p d.field d.target,
  has_all_values_iff p d.field d.target,
)

module _ {W : Type 0} (g : Guard W) (p : Principal) (policies : PolicySet) (name : String) where
  -- Under the claim checker Guard.Policy has three outcomes: an undeclared policy is refused as
  -- policy-unknown with the declared names and touches nothing; a declared one that the caller
  -- satisfies passes and touches nothing; any other is an ownership denial, of which the sink, where
  -- there are one and a clock that answers, gets one record.
  pub guard_policy_decides :
      (w : W)
      → g.checker ≡ claim_scope_checker
      → ((lookup name policies ≡ none)
          × (guard_policy g p policies name w ≡ (
            err (
                raise g.problems policy_unknown
                  "the named policy is not declared in the auth configuration"
                  (("policy", text name) ∷ ("declared", strings (policy_names policies)) ∷ [])),
            w,
          )))
        ⊎ ((d : Policy) × (lookup name policies ≡ some d)
            × Satisfied p d
            × (guard_policy g p policies name w ≡ (ok tt, w)))
        ⊎ ((d : Policy) × (lookup name policies ≡ some d)
            × (¬ Satisfied p d)
            × ((guard_policy g p policies name w).0
                ≡ err (
                    raise g.problems ownership_denied "the caller does not satisfy the named policy"
                      (policy_denial g p name d)))
            × IsLogged g (policy_denial g p name d) w (guard_policy g p policies name w).1)
  unfolding guard_policy
  guard_policy_decides w e = elim (Option-cases (lookup name policies)) [
    | inl undeclared ↦ inl (undeclared, rw (undeclared, guard_policy))
    | inr (d, declared) ↦ inr (elim (Bool-cases (satisfies g p d)) [
      | inl pass ↦
          inl (d, declared, (satisfies_iff g p d e).0 pass, rw (declared, guard_policy) (rw pass))
      | inr fail ↦ inr (
        d,
        declared,
        (λ s. false≢true (sym fail ∙ (satisfies_iff g p d e).1 s)),
        rw (declared, guard_policy) (rw fail refl),
        rw (declared, guard_policy) (rw fail (log-IsLogged g (policy_denial g p name d) w)),
      )
    ])
  ]
