-- ===== src/Text/Last.antt =====
-- strings.LastIndex at a text of one character: what follows that character's last occurrence.
use Prim.Native.Char.{code}
use Prim.Native.String
use Prim.Native.String.append
use diene_go_auth_engine.Prelude.{
  ℕ, zero, suc, ◌<◌, ◌/◌, ◌%◌, String, Bool-cases, Option, none, some, ltb, nat_eq, if◌then◌else◌,
  ◌≡◌, refl, arith, inl, inr, Option-cases, ◌∙◌, sym, ap,
}
use diene_go_auth_engine.Text.Decimal.{digit, digits, itoa, read_digits, read_digits-itoa}

-- What follows the last character of the code, where the text has one
unfoldable pub after_last : ℕ → String → Option String
after_last mark String.[] = none
after_last mark (String.◌∷◌ c s) = elim (after_last mark s) [
  | some rest ↦ some rest
  | none ↦ if nat_eq (code c) mark then some s else none
]

pub after_last-append :
    (mark : ℕ) (s t rest : String)
    → after_last mark t ≡ some rest
    → after_last mark (String.◌++◌ s t) ≡ some rest
unfolding after_last
after_last-append mark String.[] t rest h = rw append.nil h
after_last-append mark (String.◌∷◌ c s) t rest h =
    rw append.cons (ground (arith, after_last-append mark s t rest h))

lacks-append :
    (mark : ℕ) (s t : String)
    → after_last mark s ≡ none
    → after_last mark t ≡ none
    → after_last mark (String.◌++◌ s t) ≡ none
unfolding after_last
lacks-append mark String.[] t hs ht = rw append.nil ht
lacks-append mark (String.◌∷◌ c s) t hs ht = elim (Option-cases (after_last mark s)) [
  | inr (x, q) ↦ absurd (ground arith)
  | inl q ↦ rw append.cons (ground (arith, lacks-append mark s t q ht))
]

-- A digit is no dash.
digit-lacks : (n : ℕ) → n < 10 → after_last b'-' (digit n) ≡ none
unfolding after_last
digit-lacks zero h = refl
digit-lacks (suc zero) h = refl
digit-lacks (suc (suc zero)) h = refl
digit-lacks (suc (suc (suc zero))) h = refl
digit-lacks (suc (suc (suc (suc zero)))) h = refl
digit-lacks (suc (suc (suc (suc (suc zero))))) h = refl
digit-lacks (suc (suc (suc (suc (suc (suc zero)))))) h = refl
digit-lacks (suc (suc (suc (suc (suc (suc (suc zero))))))) h = refl
digit-lacks (suc (suc (suc (suc (suc (suc (suc (suc zero)))))))) h = refl
digit-lacks (suc (suc (suc (suc (suc (suc (suc (suc (suc zero))))))))) h = refl
digit-lacks (suc (suc (suc (suc (suc (suc (suc (suc (suc (suc n)))))))))) h = absurd (omega arith)

digits-lacks : (fuel n : ℕ) → after_last b'-' (digits fuel n) ≡ none
unfolding digits
digits-lacks zero n = unfold after_last in refl
digits-lacks (suc fuel) n = elim (Bool-cases (ltb n 10)) [
  | inl one ↦ rw (one, digits) (digit-lacks n (ground arith))
  | inr more ↦
      rw (more, digits)
        (lacks-append b'-' (digits fuel (n / 10)) (digit (n % 10)) (digits-lacks fuel (n / 10))
          (digit-lacks (n % 10) (omega arith)))
]

-- A text that ends in a dash and a printed number tells the number.
pub itoa-after_dash :
    (s : String) (n : ℕ) → after_last b'-' (String.◌++◌ s (String.◌∷◌ "-" (itoa n))) ≡ some (itoa n)
unfolding after_last itoa
itoa-after_dash s n =
    after_last-append b'-' s (String.◌∷◌ "-" (itoa n)) (itoa n)
      (ground (arith, digits-lacks (suc n) n))

pub itoa-injective : (n m : ℕ) → itoa n ≡ itoa m → n ≡ m
itoa-injective n m h = sym (read_digits-itoa n) ∙ ap (read_digits 0) h ∙ read_digits-itoa m
