-- ===== src/Text.antt =====
-- The functions of Go's packages strings and unicode that the engine calls, over native texts.
pub mod Words
pub mod Decimal
pub mod Last
use Prim.Native.Char.{Char, code}
use Prim.Native.String
use diene_go_auth_engine.Prelude.{
  ℕ, String, Bool, true, false, ◌||◌, ◌&&◌, List, [], ◌∷◌, leb, nat_eq, if◌then◌else◌,
}

-- unicode.IsSpace
unfoldable pub is_space : ℕ → Bool
is_space c =
    leb 9 c && leb c 13
    || nat_eq c 32
    || nat_eq c 133
    || nat_eq c 160
    || nat_eq c 5760
    || leb 8192 c && leb c 8202
    || nat_eq c 8232
    || nat_eq c 8233
    || nat_eq c 8239
    || nat_eq c 8287
    || nat_eq c 12288

-- A word that has ended joins the words after it, unless it is empty.
abbrev pub flush : String → List String → List String
flush String.[] words = words
flush (String.◌∷◌ c w) words = String.◌∷◌ c w ∷ words

-- The word that the text begins with, and the words after it.
unfoldable pub words_from : String → String × List String
unfolding is_space
words_from String.[] = (String.[], [])
words_from (String.◌∷◌ c s) =
    let (w, rest) = words_from s in
    if is_space (code c) then (String.[], flush w rest) else (String.◌∷◌ c w, rest)

-- strings.Fields
unfoldable pub fields : String → List String
unfolding words_from
fields s = let (w, rest) = words_from s in flush w rest

-- strings.Join at a separator of one space
unfoldable pub join_spaces : List String → String
join_spaces [] = String.[]
join_spaces (w ∷ []) = w
join_spaces (w ∷ v ∷ ws) = String.◌++◌ w (String.◌∷◌ " " (join_spaces (v ∷ ws)))

-- strings.TrimSpace
unfoldable pub trim_left : String → String
trim_left String.[] = String.[]
trim_left (String.◌∷◌ c s) =
    let rest = trim_left s in if is_space (code c) then rest else String.◌∷◌ c s

abbrev pub is_empty : String → Bool
is_empty String.[] = true
is_empty (String.◌∷◌ c s) = false

unfoldable pub trim_right : String → String
trim_right String.[] = String.[]
trim_right (String.◌∷◌ c s) =
    let rest = trim_right s in
    if is_space (code c) && is_empty rest then String.[] else String.◌∷◌ c rest

unfoldable pub trim_space : String → String
unfolding trim_left trim_right
trim_space s = trim_right (trim_left s)

-- strings.ReplaceAll(s, "-", "_")
unfoldable pub replace_dashes : String → String
replace_dashes String.[] = String.[]
replace_dashes (String.◌∷◌ c s) =
    String.◌∷◌ (if nat_eq (code c) b'-' then "_" else c) (replace_dashes s)
