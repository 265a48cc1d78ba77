-- ===== src/Text/Words.antt =====
-- strings.Fields and strings.Join: what splitting on white space yields, and that it undoes joining.
use Prim.Native.Char.{code}
use Prim.Native.String
use Prim.Native.String.append
use text.Mathlib.TextLemmas.{append-nil}
use diene_go_auth_engine.Prelude.{
  String, ◌≡◌, refl, ap, ◌∙◌, false, List, [], ◌∷◌, All, Bool-cases, inl, inr,
}
use diene_go_auth_engine.Text.{is_space, flush, words_from, fields, join_spaces}

-- No character of the text is white space.
abbrev pub NoSpace : String → Type 0
NoSpace String.[] = Unit {0}
NoSpace (String.◌∷◌ c s) = (is_space (code c) ≡ false) × NoSpace s

-- A text that is not empty and holds no white space.
abbrev pub IsWord : String → Type 0
IsWord String.[] = ⊥
IsWord (String.◌∷◌ c s) = (is_space (code c) ≡ false) × NoSpace s

flush-IsWord : (w : String) (ws : List String) → NoSpace w → All IsWord ws → All IsWord (flush w ws)
flush-IsWord String.[] ws h hs = hs
flush-IsWord (String.◌∷◌ c w) ws h hs = (h, hs)

words_from-IsWord : (s : String) → NoSpace (words_from s).0 × All IsWord (words_from s).1
unfolding words_from
words_from-IsWord String.[] = (tt, tt)
words_from-IsWord (String.◌∷◌ c s) = elim (Bool-cases (is_space (code c))) [
  | inl e ↦ let ih = words_from-IsWord s in rw (e, words_from) (tt, flush-IsWord _ _ ih.0 ih.1)
  | inr e ↦ let ih = words_from-IsWord s in rw (e, words_from) ((e, ih.0), ih.1)
]

pub fields-IsWord : (s : String) → All IsWord (fields s)
unfolding fields
fields-IsWord s = let ih = words_from-IsWord s in flush-IsWord _ _ ih.0 ih.1

words_from-append :
    (w t : String)
    → NoSpace w
    → words_from (String.◌++◌ w t) ≡ (String.◌++◌ w (words_from t).0, (words_from t).1)
unfolding words_from
words_from-append String.[] t h = rw append.nil (rw append.nil)
words_from-append (String.◌∷◌ c w) t h =
    rw append.cons (rw append.cons (rw (words_from-append w t h.1, words_from) (rw h.0)))

-- A word, white space and a text: the word, and then the fields of the text.
fields-append : (w t : String) → IsWord w → fields (String.◌++◌ w (String.◌∷◌ " " t)) ≡ w ∷ fields t
unfolding fields words_from is_space
fields-append String.[] t h = absurd h
fields-append (String.◌∷◌ c w) t h =
    rw (words_from-append (String.◌∷◌ c w) (String.◌∷◌ " " t) h, fields) (rw append-nil)

words_from_self : (w : String) → NoSpace w → words_from w ≡ (w, [])
unfolding words_from
words_from_self String.[] h = refl
words_from_self (String.◌∷◌ c w) h = rw (words_from_self w h.1, words_from) (rw h.0)

fields_self : (w : String) → IsWord w → fields w ≡ w ∷ []
unfolding fields
fields_self String.[] h = absurd h
fields_self (String.◌∷◌ c w) h = rw (words_from_self (String.◌∷◌ c w) h, fields)

-- Splitting undoes joining: no scope is lost, merged or split on the way.
pub fields-join_spaces : (ws : List String) → All IsWord ws → fields (join_spaces ws) ≡ ws
unfolding join_spaces
fields-join_spaces [] h = unfold fields words_from in refl
fields-join_spaces (w ∷ []) h = fields_self w h.0
fields-join_spaces (w ∷ v ∷ ws) h =
    fields-append w _ h.0 ∙ ap (λ ts. w ∷ ts) (fields-join_spaces (v ∷ ws) h.1)
