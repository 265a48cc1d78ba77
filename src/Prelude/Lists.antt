-- ===== src/Prelude/Lists.antt =====
-- Lists with lengths in the native numbers, membership of texts, and quantifiers over a list.
use Prim.Native.Nat.{ℕ, suc, ◌+◌}
use Prim.Native.String.{String}
use mathlib.Core.Path.{◌≡◌}
use mathlib.Core.Logic.{◌↔◌, ◌⊎◌}
use mathlib.Core.Bool.{Bool, true, false, ◌||◌}
use mathlib.Core.List.{List, [], ◌∷◌, ◌++◌}
use native.Mathlib.Omega.{arith}
use text.Mathlib.Text.{◌==◌}
use text.Mathlib.TextEquality.{eq_iff}

module _ {ℓ} {A : Type ℓ} where
  abbrev pub length : List A → ℕ
  length [] = 0
  length (x ∷ xs) = suc (length xs)

  pub length-append : (xs ys : List A) → length (xs ++ ys) ≡ length xs + length ys
  length-append [] ys = omega arith
  length-append (x ∷ xs) ys = omega (arith, length-append xs ys)

-- Every member of a list, and some member of a list: predicates that compute.
abbrev pub All {ℓ κ} : {A : Type ℓ} → (A → Type κ) → List A → Type κ
All P [] = Unit
All P (x ∷ xs) = P x × All P xs

abbrev pub Any {ℓ} : {A : Type ℓ} → (A → Type 0) → List A → Type 0
Any P [] = ⊥
Any P (x ∷ xs) = P x ⊎ Any P xs

-- `slices.Contains` over texts.
unfoldable pub contains : List String → String → Bool
contains [] s = false
contains (x ∷ xs) s = x == s || contains xs s

pub contains_iff : (xs : List String) (s : String) → (contains xs s ≡ true) ↔ Any (λ x. x ≡ s) xs
unfolding contains
contains_iff [] s = ((λ h. cc), (λ h. absurd h))
contains_iff (x ∷ xs) s = ground (arith, eq_iff x s, contains_iff xs s)
