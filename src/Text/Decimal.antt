-- ===== src/Text/Decimal.antt =====
-- strconv.Itoa on numbers that are not negative, and that its texts read back.
use Prim.Native.Char.{code}
use Prim.Native.String
use Prim.Native.String.append
use diene_go_auth_engine.Prelude.{
  ℕ, zero, suc, ◌+◌, ◌-◌, ◌*◌, ◌/◌, ◌%◌, ◌<◌, String, ltb, if◌then◌else◌, ◌≡◌, refl, arith,
  Bool-cases, inl, inr,
}

-- The character of a text at a position, as a text
abbrev char_at : String → ℕ → String
char_at String.[] n = ""
char_at (String.◌∷◌ c s) zero = String.◌∷◌ c ""
char_at (String.◌∷◌ c s) (suc n) = char_at s n

-- The digit of a number below ten
abbrev pub digit : ℕ → String
digit n = char_at "0123456789" n

-- The digits of a number below the fuel; each round divides it by ten.
unfoldable pub digits : ℕ → ℕ → String
digits zero n = ""
digits (suc fuel) n =
    let higher = digits fuel (n / 10) in
    if ltb n 10 then digit n else String.◌++◌ higher (digit (n % 10))

-- strconv.Itoa
unfoldable pub itoa : ℕ → String
itoa n = digits (suc n) n

-- The number that a text of digits stands for, behind a number already read
unfoldable pub read_digits : ℕ → String → ℕ
read_digits acc String.[] = acc
read_digits acc (String.◌∷◌ c s) = read_digits (acc * 10 + (code c - b'0')) s

read_digits-append :
    (acc : ℕ) (s t : String) → read_digits acc (String.◌++◌ s t) ≡ read_digits (read_digits acc s) t
unfolding read_digits
read_digits-append acc String.[] t = rw append.nil refl
read_digits-append acc (String.◌∷◌ c s) t =
    rw append.cons (read_digits-append (acc * 10 + (code c - b'0')) s t)

read_digits-digit : (acc n : ℕ) → n < 10 → read_digits acc (digit n) ≡ acc * 10 + n
unfolding read_digits
read_digits-digit acc zero h = omega arith
read_digits-digit acc (suc zero) h = omega arith
read_digits-digit acc (suc (suc zero)) h = omega arith
read_digits-digit acc (suc (suc (suc zero))) h = omega arith
read_digits-digit acc (suc (suc (suc (suc zero)))) h = omega arith
read_digits-digit acc (suc (suc (suc (suc (suc zero))))) h = omega arith
read_digits-digit acc (suc (suc (suc (suc (suc (suc zero)))))) h = omega arith
read_digits-digit acc (suc (suc (suc (suc (suc (suc (suc zero))))))) h = omega arith
read_digits-digit acc (suc (suc (suc (suc (suc (suc (suc (suc zero)))))))) h = omega arith
read_digits-digit acc (suc (suc (suc (suc (suc (suc (suc (suc (suc zero))))))))) h = omega arith
read_digits-digit acc (suc (suc (suc (suc (suc (suc (suc (suc (suc (suc n)))))))))) h =
    absurd (omega arith)

digits-reads : (fuel n : ℕ) → n < fuel → read_digits 0 (digits fuel n) ≡ n
unfolding digits
digits-reads zero n h = absurd (omega arith)
digits-reads (suc fuel) n h = elim (Bool-cases (ltb n 10)) [
  | inl one ↦ rw (one, digits) (omega (arith, read_digits-digit 0 n (ground arith)))
  | inr more ↦
      let higher = digits fuel (n / 10) in
      rw (more, digits)
        (ground (
          arith,
          read_digits-append 0 higher (digit (n % 10)),
          read_digits-digit (read_digits 0 higher) (n % 10),
          digits-reads fuel (n / 10),
        ))
]

-- The fuel is enough: what Itoa prints reads back as the number.
pub read_digits-itoa : (n : ℕ) → read_digits 0 (itoa n) ≡ n
unfolding itoa
read_digits-itoa n = digits-reads (suc n) n (omega arith)
