-- ===== src/Effect.antt =====
-- Go functions that return (T, error) and act on the world behind the injected seams. What was
-- done before a failure stays done, so the world comes back beside the error too.
use diene_go_auth_engine.Prelude.{String, Bool, true, false, refl, ◌≡◌, inl, inr, ◌⊎◌}
use diene_go_auth_engine.Problems.{Error, Result, ok, err}
use diene_go_auth_engine.Time.{Instant}
use diene_go_auth_engine.Value.{Value, Assoc}

abbrev pub Eff : Type 0 → Type 0 → Type 0
Eff W A = W → Result A × W

-- The error of a call, replaced: `if err != nil { return …, raiseFrom(err) }`.
abbrev pub map_err : {A : Type 0} → (Error → Error) → Result A → Result A
map_err f (ok a) = ok a
map_err f (err e) = err (f e)

module _ {W A : Type 0} where
  abbrev pub pure : A → Eff W A
  pure a w = (ok a, w)

  abbrev pub fail : Error → Eff W A
  fail e w = (err e, w)

  abbrev pub lift : Result A → Eff W A
  lift r w = (r, w)

  abbrev pub on_err : (Error → Error) → Eff W A → Eff W A
  on_err f m w = let (r, w') = m w in (map_err f r, w')

module _ {W A B : Type 0} where
  abbrev pub continue : Result A → (A → Eff W B) → Eff W B
  continue (ok a) f w = f a w
  continue (err e) f w = (err e, w)

  infixl 5 ◌>>=◌ ◌>>◌
  abbrev pub ◌>>=◌ : Eff W A → (A → Eff W B) → Eff W B
  ◌>>=◌ m f w = let (r, w') = m w in continue r f w'

  abbrev pub ◌>>◌ : Eff W A → Eff W B → Eff W B
  m >> n = m >>= λ _. n

-- `if bad { return err }`
abbrev pub refuse_if : {W : Type 0} → Bool → Error → Eff W (Unit {0})
refuse_if true e = fail e
refuse_if false e = pure tt

-- interfaces.System, the clock seam
pub record Clock (W : Type 0) : Type 0 where
  pub now_utc : Eff W Instant

-- interfaces.NewLogRecord at a level, a message and its fields, with no error and no trace
pub record LogRecord : Type 0 where
  pub time : Instant
  pub level : String
  pub message : String
  pub fields : Assoc Value

-- interfaces.LoggerSink
pub record LoggerSink (W : Type 0) : Type 0 where
  pub emit : LogRecord → Eff W (Unit {0})

pub Result-cases :
    {A : Type 0} (r : Result A) → ((a : A) × (r ≡ ok a)) ⊎ ((e : Error) × (r ≡ err e))
Result-cases (ok a) = inl (a, refl)
Result-cases (err e) = inr (e, refl)

-- An action that leaves alone what a store holds under each key.
abbrev pub Spares : {W A B : Type 0} → (W → String → B) → Eff W A → Type 0
Spares {W} held m = (w : W) (j : String) → held (m w).1 j ≡ held w j
