-- ===== src/Value.antt =====
-- The dynamic values of Go's `any` that the engine stores and reads: claim values, problem payloads
-- and JSON documents. A map is an association list, read at its first entry for a key.
use diene_go_auth_engine.Prelude.{
  String, ◌≡◌, refl, Bool, Option, none, some, List, [], ◌∷◌, arith, ◌==◌, eq_iff, if◌then◌else◌,
  not,
}
use diene_go_auth_engine.Prelude.Int.{ℤ}

-- A float64 is known by the integer that `int64(value)` gives, the only way the engine reads one.
mutual
  pub data Value : Type 0 where
    null : Value
    text : String → Value
    flag : Bool → Value
    float64 : ℤ → Value
    int64 : ℤ → Value
    int : ℤ → Value
    strings : List String → Value
    list : Values → Value
    object : Fields → Value

  pub data Values : Type 0 where
    no_values : Values
    member : Value → Values → Values

  pub data Fields : Type 0 where
    no_fields : Fields
    field : String → Value → Fields → Fields

abbrev pub Assoc {ℓ} : Type ℓ → Type ℓ
Assoc V = List (String × V)

-- Maps with texts for keys: m[name], m[name] = value and delete(m, name).
module _ {ℓ} {A : Type ℓ} where
  unfoldable pub lookup : String → Assoc A → Option A
  lookup name [] = none
  lookup name ((key, value) ∷ entries) =
      let later = lookup name entries in if key == name then some value else later

  unfoldable pub insert : String → A → Assoc A → Assoc A
  insert name new [] = (name, new) ∷ []
  insert name new ((key, value) ∷ entries) =
      let later = insert name new entries in
      if key == name then (name, new) ∷ entries else (key, value) ∷ later

  unfoldable pub remove : String → Assoc A → Assoc A
  remove name [] = []
  remove name ((key, value) ∷ entries) =
      let later = remove name entries in if not (key == name) then (key, value) ∷ later else later

  pub lookup-insert :
      (name other : String) (new : A) (entries : Assoc A)
      → lookup other (insert name new entries)
        ≡ (if name == other then some new else lookup other entries)
  unfolding lookup insert
  lookup-insert name other new [] = refl
  lookup-insert name other new ((key, value) ∷ entries) =
      let later = lookup-insert name other new entries in
      ground (arith, later, eq_iff name other, eq_iff key other, eq_iff key name)

  pub lookup-remove :
      (name other : String) (entries : Assoc A)
      → lookup other (remove name entries) ≡ (if name == other then none else lookup other entries)
  unfolding lookup remove
  lookup-remove name other [] = ground arith
  lookup-remove name other ((key, value) ∷ entries) =
      let later = lookup-remove name other entries in
      ground (arith, later, eq_iff name other, eq_iff key other, eq_iff key name)
