-- ===== src/Tests/Callers.antt =====
-- Guards, policies, resource trees, tokens, claims and landscapes at concrete inputs.
use diene_go_auth_engine.Prelude.{
  String, none, some, List, [], ◌∷◌, true, ◌≡◌, ◌≢◌, ◌↔◌, ◌⊎◌, refl, All, Any, if◌then◌else◌, ◌==◌,
}
use diene_go_auth_engine.Value.{lookup, strings, text}
use diene_go_auth_engine.Guard.Logged.{IsLogged}
use diene_go_auth_engine.Guard.Ownership.{IsDenied, Owns, sub_or_all_decides, sub_or_any_decides}
use diene_go_auth_engine.Guard.{
  Guard, Policy, PolicySet, claim_scope_checker, claim_values, guard_policy, policy_denial,
  policy_names, sub_or_all, sub_or_any,
}
use diene_go_auth_engine.Guard.Checker.{Holds}
use diene_go_auth_engine.Resource.Declared.{IsValid, find_resource, new_resource_tree_accepts}
use diene_go_auth_engine.Landscape.{Landscape, Selector, pick}
use diene_go_auth_engine.Token.{Resource}
use diene_go_auth_engine.Resource.{ResourceTree, lookup_resource, new_resource_tree, resources}
use diene_go_auth_engine.Guard.Policies.{Satisfied, guard_policy_decides}
use diene_go_auth_engine.Tests.Fixtures.{alice, problems, zinc, still}
use diene_go_auth_engine.Landscape.Nearest.{answered}
use diene_go_auth_engine.Problems.{err, ok, ownership_denied, policy_unknown, raise}
use diene_go_auth_engine.Text.{is_space, join_spaces, trim_left, trim_right, trim_space}
use diene_go_auth_engine.Prelude.Int.{pos}
use diene_go_auth_engine.Claims.{Claims}
use diene_go_auth_engine.Landscape.First.{chosen, first_nearest, pick-first_nearest}

abbrev guard : Guard (Unit {0})
guard = record {
  problems = problems;
  checker = claim_scope_checker;
  logs = some (record { emit = λ r w. (ok tt, w) });
  clock = some still;
}

abbrev admins : List String
admins = "admin" ∷ "root" ∷ []

sub_or_any_decides_example :
    (((sub_or_any guard alice none "roles" admins tt).0 ≡ ok tt)
      ↔ (Owns alice none ⊎ Any (Holds (claim_values alice "roles")) admins))
    × ((sub_or_any guard alice none "roles" admins tt ≡ (ok tt, tt))
        ⊎ IsDenied guard alice none "roles" admins tt
            (sub_or_any guard alice none "roles" admins tt))
sub_or_any_decides_example = sub_or_any_decides guard alice none "roles" admins tt refl

sub_or_all_decides_example :
    (((sub_or_all guard alice none "roles" admins tt).0 ≡ ok tt)
      ↔ (Owns alice none ⊎ ((admins ≢ []) × All (Holds (claim_values alice "roles")) admins)))
    × ((sub_or_all guard alice none "roles" admins tt ≡ (ok tt, tt))
        ⊎ IsDenied guard alice none "roles" admins tt
            (sub_or_all guard alice none "roles" admins tt))
sub_or_all_decides_example = sub_or_all_decides guard alice none "roles" admins tt refl

abbrev policies : PolicySet
policies = ("ops", record { kind = "all"; field = "roles"; target = admins }) ∷ []

guard_policy_decides_example :
    ((lookup "ops" policies ≡ none)
      × (guard_policy guard alice policies "ops" tt ≡ (
        err (
            raise problems policy_unknown
              "the named policy is not declared in the auth configuration"
              (("policy", text "ops") ∷ ("declared", strings (policy_names policies)) ∷ [])),
        tt,
      )))
    ⊎ ((d : Policy) × (lookup "ops" policies ≡ some d)
        × Satisfied alice d
        × (guard_policy guard alice policies "ops" tt ≡ (ok tt, tt)))
    ⊎ ((d : Policy) × (lookup "ops" policies ≡ some d)
        × (¬ Satisfied alice d)
        × ((guard_policy guard alice policies "ops" tt).0
            ≡ err (
                raise problems ownership_denied "the caller does not satisfy the named policy"
                  (policy_denial guard alice "ops" d)))
        × IsLogged guard
            (policy_denial guard alice "ops" d)
            tt
            (guard_policy guard alice policies "ops" tt).1)
guard_policy_decides_example = guard_policy_decides guard alice policies "ops" tt refl

abbrev declared_resources : List Resource
declared_resources = zinc ∷ []

declared_resources-IsValid : IsValid declared_resources
unfolding trim_space trim_left trim_right is_space
declared_resources-IsValid = (refl, refl, tt, tt)

new_resource_tree_accepts_example :
    (t : ResourceTree) × (new_resource_tree (some problems) declared_resources ≡ ok t)
    × (resources t ≡ declared_resources)
    × ((n : String) → lookup_resource t n ≡ find_resource n declared_resources)
new_resource_tree_accepts_example =
    new_resource_tree_accepts problems declared_resources declared_resources-IsValid

twice-invalid : ¬ IsValid (zinc ∷ zinc ∷ [])
twice-invalid (named, indicated, fresh, valid) = fresh.0 refl

abbrev slugify : String → String
slugify name = name

abbrev scoped : Claims
scoped = ("scope", text (join_spaces ("read" ∷ "write" ∷ []))) ∷ []

abbrev far : Landscape
far = record { name = "far"; display = ""; region = ""; healthy = true }

abbrev near : Landscape
near = record { name = "near"; display = ""; region = ""; healthy = true }

abbrev selector : Selector (Unit {0})
selector = record {
  pinger = record { ping = λ c w. (ok (if c.name == "near" then pos 5 else pos 9), w) };
  problems = problems;
}

pick-first_nearest_example :
    (pick selector (far ∷ near ∷ []) tt).0
    ≡ chosen problems (far ∷ near ∷ []) (first_nearest (answered selector (far ∷ near ∷ []) tt))
pick-first_nearest_example = pick-first_nearest selector (far ∷ near ∷ []) tt
