-- ===== src/Strings.antt =====
-- slices.Sort over texts: the order of their code points.
use Prim.Native.Nat.{Ordering}
use Prim.Native.String.{compare}
use diene_go_auth_engine.Prelude.{String, List, [], ◌∷◌, Bool, true, false, if◌then◌else◌}

abbrev pub str_leb : String → String → Bool
str_leb s t = elim (compare s t) [ Ordering.gt ↦ false | _ ↦ true ]

unfoldable pub insert_sorted : String → List String → List String
insert_sorted s [] = s ∷ []
insert_sorted s (t ∷ ts) = if str_leb s t then s ∷ t ∷ ts else t ∷ insert_sorted s ts

unfoldable pub sort : List String → List String
unfolding insert_sorted
sort [] = []
sort (s ∷ ss) = insert_sorted s (sort ss)
