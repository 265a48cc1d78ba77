-- ===== src/Resource.antt =====
-- lib/authengine/resource.go: the declared tree of backends.
pub mod Declared
use diene_go_auth_engine.Value.{Assoc, insert, lookup, strings, text}
use diene_go_auth_engine.Prelude.{
  Bool, List, Option, String, [], arith, if◌then◌else◌, map, none, some, ◌++◌, ◌==◌, ◌∷◌,
}
use diene_go_auth_engine.Problems.{
  Error, Problems, Result, config_invalid, err, ok, plain, raise, resource_unregistered,
}
use diene_go_auth_engine.Token.{Resource}
use diene_go_auth_engine.Text.{trim_space}

pub record ResourceTree : Type 0 where
  pub problems : Problems
  pub ordered : List Resource
  pub index : Assoc Resource

-- strings.TrimSpace(s) == ""
abbrev pub is_blank : String → Bool
is_blank s = trim_space s == ""

-- The copy that the tree keeps of one declaration
abbrev pub entry_of : Resource → Resource
entry_of r = record { name = r.name; indicator = r.indicator; scopes = r.scopes }

-- The checks on one declaration, in the order of the code
unfoldable pub check_entry : Problems → Assoc Resource → Resource → Option Error
check_entry p index r =
    if is_blank r.name
    then some (raise p config_invalid "a resource-tree entry carries a blank name" [])
    else if is_blank r.indicator
    then some (
        raise p config_invalid "a resource-tree entry carries a blank resource indicator"
          (("name", text r.name) ∷ []))
    else elim (lookup r.name index) [
      | some other ↦ some (
          raise p config_invalid "the resource tree declares one name twice"
            (("name", text r.name) ∷ []))
      | none ↦ none
    ]

-- The loop of NewResourceTree over the declarations that are left
unfoldable pub declare_all :
    Problems → List Resource → Assoc Resource → List Resource → Result ResourceTree
declare_all p ordered index [] = ok (record { problems = p; ordered = ordered; index = index })
declare_all p ordered index (r ∷ rs) =
    let rest = declare_all p (ordered ++ entry_of r ∷ []) (insert r.name (entry_of r) index) rs in
    elim (check_entry p index r) [ some e ↦ err e | none ↦ rest ]

-- NewResourceTree
unfoldable pub new_resource_tree : Option Problems → List Resource → Result ResourceTree
new_resource_tree none resources =
    err (plain "auth-engine resource tree requires a problem factory")
new_resource_tree (some p) resources = declare_all p [] [] resources

-- ResourceTree.Resources
unfoldable pub resources : ResourceTree → List Resource
resources t = t.ordered

-- ResourceTree.Names
unfoldable pub names : ResourceTree → List String
names t = map (λ r. r.name) t.ordered

-- ResourceTree.Lookup
unfoldable pub lookup_resource : ResourceTree → String → Option Resource
lookup_resource t name = lookup name t.index

-- ResourceTree.Require
unfoldable pub require_resource : ResourceTree → String → Result Resource
require_resource t name = elim (lookup name t.index) [
  | none ↦ err (
      raise t.problems resource_unregistered "the resource tree declares no such resource"
        (("resource", text name) ∷ ("declared", strings (names t)) ∷ []))
  | some r ↦ ok r
]
