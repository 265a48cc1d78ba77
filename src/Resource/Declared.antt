-- ===== src/Resource/Declared.antt =====
-- What NewResourceTree (lib/authengine/resource.go) accepts, and what an accepted tree answers.
use mathlib.Core.List.{append-nil, append_assoc}
use diene_go_auth_engine.Prelude.{
  All, List, Option, String, [], arith, false, if◌then◌else◌, none, refl, some, ◌++◌, ◌==◌, ◌∷◌,
  ◌≡◌, ◌≢◌, Option-cases, eq_iff, inl, inr, sym, ◌↔◌, ◌∙◌, ◌⊎◌, Bool-cases, ap, map,
}
use diene_go_auth_engine.Token.{Resource}
use diene_go_auth_engine.Resource.{
  is_blank, ResourceTree, check_entry, declare_all, lookup_resource, names, new_resource_tree,
  require_resource, resources,
}
use diene_go_auth_engine.Value.{Assoc, Value, insert, lookup, lookup-insert, strings, text}
use diene_go_auth_engine.Problems.{
  Error, Problems, config_invalid, err, ok, raise, resource_unregistered,
}
use diene_go_auth_engine.Time.{before}

-- The first resource of that name
abbrev pub find_resource : String → List Resource → Option Resource
find_resource n [] = none
find_resource n (r ∷ rs) = if r.name == n then some r else find_resource n rs

-- No resource of the list has the name.
abbrev pub Fresh : String → List Resource → Type 0
Fresh n rs = All (λ r. r.name ≢ n) rs

-- Names and indicators that are not blank, and no name twice.
abbrev pub IsValid : List Resource → Type 0
IsValid [] = Unit {0}
IsValid (r ∷ rs) =
    (is_blank r.name ≡ false) × (is_blank r.indicator ≡ false) × Fresh r.name rs × IsValid rs

find_resource-append :
    (n : String) (acc : List Resource) (r : Resource)
    → find_resource n (acc ++ r ∷ [])
      ≡ elim (find_resource n acc) [ some q ↦ some q | none ↦ if r.name == n then some r else none ]
find_resource-append n [] r = refl
find_resource-append n (q ∷ acc) r = ground (arith, find_resource-append n acc r)

-- The index answers like a search of the declarations.
abbrev pub Agrees : Assoc Resource → List Resource → Type 0
Agrees index acc = (n : String) → lookup n index ≡ find_resource n acc

-- No name of the list is declared before it.
abbrev Unseen : List Resource → List Resource → Type 0
Unseen acc rs = All (λ r. find_resource r.name acc ≡ none) rs

Agrees-insert :
    (index : Assoc Resource) (acc : List Resource) (r : Resource)
    → Agrees index acc
    → find_resource r.name acc ≡ none
    → Agrees (insert r.name r index) (acc ++ r ∷ [])
Agrees-insert index acc r agrees unseen n =
    ground (
      arith,
      lookup-insert r.name n r index,
      find_resource-append n acc r,
      agrees n,
      eq_iff r.name n,
    )

Unseen-append :
    (acc : List Resource) (r : Resource) (rs : List Resource)
    → Fresh r.name rs
    → Unseen acc rs
    → Unseen (acc ++ r ∷ []) rs
Unseen-append acc r [] fresh unseen = tt
Unseen-append acc r (q ∷ rs) fresh unseen = (
  ground (arith, find_resource-append q.name acc r, eq_iff r.name q.name),
  Unseen-append acc r rs fresh.1 unseen.1,
)

Unseen-before :
    (acc : List Resource) (r : Resource) (rs : List Resource)
    → Unseen (acc ++ r ∷ []) rs
    → Fresh r.name rs × Unseen acc rs
Unseen-before acc r [] unseen = (tt, tt)
Unseen-before acc r (q ∷ rs) unseen =
    let (fresh, before) = Unseen-before acc r rs unseen.1 in
    (
      (ground (arith, find_resource-append q.name acc r, eq_iff r.name q.name), fresh),
      (ground (arith, find_resource-append q.name acc r), before),
    )

Unseen-nil : (rs : List Resource) → Unseen [] rs
Unseen-nil [] = tt
Unseen-nil (r ∷ rs) = (refl, Unseen-nil rs)

module _ (p : Problems) where
  check_entry_iff :
      (index : Assoc Resource) (acc : List Resource) (r : Resource)
      → Agrees index acc
      → (check_entry p index r ≡ none) ↔ (
          (is_blank r.name ≡ false)
          × (is_blank r.indicator ≡ false)
          × (find_resource r.name acc ≡ none))
  unfolding check_entry
  check_entry_iff index acc r agrees = ground (arith, agrees r.name)

  check_entry-config_invalid :
      (index : Assoc Resource) (r : Resource) (e : Error)
      → check_entry p index r ≡ some e
      → (d : String) × (data' : Assoc Value) × (e ≡ raise p config_invalid d data')
  unfolding check_entry
  check_entry-config_invalid index r e h = elim (Bool-cases (is_blank r.name)) [
    | inl b ↦ ("a resource-tree entry carries a blank name", [], ground arith)
    | inr nb ↦ elim (Bool-cases (is_blank r.indicator)) [
      | inl b ↦ (
        "a resource-tree entry carries a blank resource indicator",
        ("name", text r.name) ∷ [],
        ground arith,
      )
      | inr nb' ↦
          ("the resource tree declares one name twice", ("name", text r.name) ∷ [], ground arith)
    ]
  ]

  accept :
      (acc : List Resource) (index : Assoc Resource) (rs : List Resource)
      → Agrees index acc
      → Unseen acc rs
      → IsValid rs
      → (t : ResourceTree) × (declare_all p acc index rs ≡ ok t)
        × (t.ordered ≡ acc ++ rs)
        × Agrees t.index t.ordered
        × (t.problems ≡ p)
  unfolding declare_all
  accept acc index [] agrees unseen valid = (
    record { problems = p; ordered = acc; index = index },
    refl,
    sym (append-nil acc),
    agrees,
    refl,
  )
  accept acc index (r ∷ rs) agrees unseen valid =
      let (t, e, o, a, q) =
        accept (acc ++ r ∷ []) (insert r.name r index) rs
          (Agrees-insert index acc r agrees unseen.0) (Unseen-append acc r rs valid.2 unseen.1)
          valid.3 in
      (
        t,
        rw ((check_entry_iff index acc r agrees).1 (valid.0, valid.1, unseen.0), declare_all) e,
        o ∙ append_assoc acc (r ∷ []) rs,
        a,
        q,
      )

  -- The result of the loop, on either side
  outcome :
      (acc : List Resource) (index : Assoc Resource) (rs : List Resource)
      → Agrees index acc
      → ((t : ResourceTree) × (declare_all p acc index rs ≡ ok t) × IsValid rs × Unseen acc rs)
        ⊎ ((d : String) × (data' : Assoc Value) × (declare_all p acc index rs
              ≡ err (raise p config_invalid d data')))
  unfolding declare_all
  outcome acc index [] agrees = inl (_, refl, tt, tt)
  outcome acc index (r ∷ rs) agrees = elim (Option-cases (check_entry p index r)) [
    | inr (e, refused) ↦
        let (d, data', is) = check_entry-config_invalid index r e refused in
        inr (d, data', rw (refused, declare_all) (ap err is))
    | inl passed ↦
        let (named, indicated, unseen) = (check_entry_iff index acc r agrees).0 passed in
        elim (outcome (acc ++ r ∷ []) (insert r.name r index) rs
          (Agrees-insert index acc r agrees unseen)) [
            | inl (t, e, valid, before) ↦
                let (fresh, old) = Unseen-before acc r rs before in
                inl (t, rw (passed, declare_all) e, (named, indicated, fresh, valid), (unseen, old))
            | inr (d, data', e) ↦ inr (d, data', rw (passed, declare_all) e)
          ]
  ]

-- NewResourceTree accepts every valid list of declarations: the tree holds them in their order, and
-- a lookup answers like a search of them.
pub new_resource_tree_accepts :
    (p : Problems) (rs : List Resource)
    → IsValid rs
    → (t : ResourceTree) × (new_resource_tree (some p) rs ≡ ok t)
      × (resources t ≡ rs)
      × ((n : String) → lookup_resource t n ≡ find_resource n rs)
unfolding new_resource_tree resources lookup_resource
new_resource_tree_accepts p rs valid =
    let (t, e, o, a, q) = accept p [] [] rs (λ n. unfold lookup in refl) (Unseen-nil rs) valid in
    (t, e, o, λ n. a n ∙ ap (find_resource n) o)

-- NewResourceTree refuses every list of declarations that is not valid, as config-invalid.
pub new_resource_tree_refuses :
    (p : Problems) (rs : List Resource)
    → ¬ IsValid rs
    → (d : String) × (data' : Assoc Value) × (new_resource_tree (some p) rs
        ≡ err (raise p config_invalid d data'))
unfolding new_resource_tree
new_resource_tree_refuses p rs invalid = elim (outcome p [] [] rs (λ n. unfold lookup in refl)) [
  | inl (t, e, valid, unseen) ↦ absurd (invalid valid)
  | inr refused ↦ refused
]

-- In the tree of a valid list of declarations, Require answers a declared name with its
-- declaration, and refuses an undeclared one as resource-unregistered with the declared names in
-- their order.
pub require_resource_lem :
    (p : Problems) (rs : List Resource) (n : String)
    → IsValid rs
    → (t : ResourceTree) × (new_resource_tree (some p) rs ≡ ok t)
      × (require_resource t n ≡ elim (find_resource n rs) [
        | some r ↦ ok r
        | none ↦ err (
            raise p resource_unregistered "the resource tree declares no such resource"
              (("resource", text n) ∷ ("declared", strings (map (λ r. r.name) rs)) ∷ []))
      ])
unfolding new_resource_tree require_resource names
require_resource_lem p rs n valid =
    let (t, e, o, a, q) = accept p [] [] rs (λ n. unfold lookup in refl) (Unseen-nil rs) valid in
    (t, e, ground (arith, a n, o, q))
