-- ===== src/Guard/Logged.antt =====
-- The denial in the log of lib/authengine/guard.go.
use diene_go_auth_engine.Prelude.{◌≡◌, ◌⊎◌, inl, inr, none, some, arith, Option-cases}
use diene_go_auth_engine.Effect.{Clock, Result-cases}
use diene_go_auth_engine.Guard.{Guard, LoggerSink, log}
use diene_go_auth_engine.Problems.{Error, err, ok}
use diene_go_auth_engine.Time.{Instant}
use diene_go_auth_engine.Value.{Assoc, Value}

-- The world after a denial: without a sink or a clock it is untouched, a clock that fails is all that
-- was asked, and else the sink has been given one record of the instant, at the level info, with the
-- denial's fields.
abbrev pub IsLogged : {W : Type 0} → Guard W → Assoc Value → W → W → Type 0
IsLogged {W} g fields w w' =
    (g.logs ≡ none) × (w' ≡ w)
    ⊎ (g.clock ≡ none) × (w' ≡ w)
    ⊎ ((sink : LoggerSink W) × (clock : Clock W) × (g.logs ≡ some sink)
        × (g.clock ≡ some clock)
        × (((e : Error) × ((clock.now_utc w).0 ≡ err e) × (w' ≡ (clock.now_utc w).1))
            ⊎ ((t : Instant) × ((clock.now_utc w).0 ≡ ok t)
                × (w'
                    ≡ (sink.emit
                        (record {
                          time = t;
                          level = "info";
                          message = "auth failed";
                          fields = fields;
                        })
                        (clock.now_utc w).1).1))))

pub log-IsLogged :
    {W : Type 0} (g : Guard W) (fields : Assoc Value) (w : W) → IsLogged g fields w (log g fields w)
unfolding log
log-IsLogged g fields w = elim (Option-cases g.logs) [
  | inl silent ↦ inl (silent, ground (arith, silent))
  | inr (sink, es) ↦ elim (Option-cases g.clock) [
    | inl timeless ↦ inr (inl (timeless, ground (arith, es, timeless)))
    | inr (clock, ec) ↦ elim (Result-cases (clock.now_utc w).0) [
      | inr (e, en) ↦ inr (inr (sink, clock, es, ec, inl (e, en, ground (arith, es, ec, en))))
      | inl (t, en) ↦ inr (inr (sink, clock, es, ec, inr (t, en, ground (arith, es, ec, en))))
    ]
  ]
]
