-- ===== src/Landscape/Nearest.antt =====
-- Selector.Pick (lib/onboard/landscape.go) chooses the nearest of the landscapes that answered.
use diene_go_auth_engine.Time.{Duration}
use diene_go_auth_engine.Landscape.{
  Landscape, Selector, improve, probe, probe_all, landscape_names, pick,
}
use diene_go_auth_engine.Prelude.{
  List, [], arith, if◌then◌else◌, ◌∷◌, All, Any, false, refl, some, true, ◌≡◌, ◌⊎◌, Bool-cases, inl,
  inr, none,
}
use diene_go_auth_engine.Problems.{err, ok, home_landscape_unresolved, raise}
use diene_go_auth_engine.Prelude.Int.{ltb_ℤ, ◌≤ℤ◌}
use diene_go_auth_engine.Effect.{Result-cases}
use diene_go_auth_engine.Value.{strings}

module _ {W : Type 0} (s : Selector W) where
  -- The healthy candidates that answer their ping, with the latencies they answer with, pinged in
  -- order from a world on.
  unfoldable pub answered : List Landscape → W → List (Landscape × Duration)
  answered [] w = []
  answered (c ∷ cs) w =
      if c.healthy
      then elim (s.pinger.ping c w).0 [
        | ok latency ↦ (c, latency) ∷ answered cs (s.pinger.ping c w).1
        | err e ↦ answered cs (s.pinger.ping c w).1
      ]
      else answered cs w

  -- One of the answers, and none of them is nearer.
  abbrev pub IsNearest : List (Landscape × Duration) → Landscape × Duration → Type 0
  IsNearest answers x = Any (λ y. y ≡ x) answers × All (λ y. x.1 ≤ℤ y.1) answers

  improve-IsNearest :
      (chosen c : Landscape) (best d : Duration) (rest : List (Landscape × Duration))
      (x : Landscape × Duration)
      → (ltb_ℤ d best ≡ true) × IsNearest ((c, d) ∷ rest) x
        ⊎ (ltb_ℤ d best ≡ false) × IsNearest ((chosen, best) ∷ rest) x
      → IsNearest ((chosen, best) ∷ (c, d) ∷ rest) x
  improve-IsNearest chosen c best d rest x h = ground arith

  from_best :
      (cs : List Landscape) (w : W) (chosen : Landscape) (best : Duration)
      → (x : Landscape × Duration) × ((probe_all s (some (chosen, best)) cs w).0 ≡ some x)
        × IsNearest ((chosen, best) ∷ answered cs w) x
  unfolding probe_all answered probe improve
  from_best [] w chosen best = ((chosen, best), refl, ground arith)
  from_best (c ∷ cs) w chosen best = elim (Bool-cases c.healthy) [
    | inr skip ↦
        let (x, e, n) = from_best cs w chosen best in (x, ground (arith, e), ground (arith, n))
    | inl up ↦
        let w' = (s.pinger.ping c w).1 in
        elim (Result-cases (s.pinger.ping c w).0) [
          | inr (lost, er) ↦
              let (x, e, n) = from_best cs w' chosen best in
              (x, ground (arith, e), ground (arith, n))
          | inl (d, er) ↦ elim (Bool-cases (ltb_ℤ d best)) [
            | inl nearer ↦
                let (x, e, n) = from_best cs w' c d in
                (
                  x,
                  ground (arith, e),
                  ground (
                    arith,
                    improve-IsNearest chosen c best d (answered cs w') x (inl (nearer, n)),
                  ),
                )
            | inr farther ↦
                let (x, e, n) = from_best cs w' chosen best in
                (
                  x,
                  ground (arith, e),
                  ground (
                    arith,
                    improve-IsNearest chosen c best d (answered cs w') x (inr (farther, n)),
                  ),
                )
          ]
        ]
  ]

  -- Either nobody answered and nothing is chosen, or the choice is the nearest of the answers.
  from_none :
      (cs : List Landscape) (w : W)
      → (answered cs w ≡ []) × ((probe_all s none cs w).0 ≡ none)
        ⊎ ((x : Landscape × Duration) × ((probe_all s none cs w).0 ≡ some x)
            × IsNearest (answered cs w) x)
  unfolding probe_all answered probe improve
  from_none [] w = inl (refl, refl)
  from_none (c ∷ cs) w = elim (Bool-cases c.healthy) [
    | inr skip ↦ elim (from_none cs w) [
      | inl (a, e) ↦ inl (ground (arith, a), ground (arith, e))
      | inr (x, e, n) ↦ inr (x, ground (arith, e), ground (arith, n))
    ]
    | inl up ↦
        let w' = (s.pinger.ping c w).1 in
        elim (Result-cases (s.pinger.ping c w).0) [
          | inr (lost, er) ↦ elim (from_none cs w') [
            | inl (a, e) ↦ inl (ground (arith, a), ground (arith, e))
            | inr (x, e, n) ↦ inr (x, ground (arith, e), ground (arith, n))
          ]
          | inl (d, er) ↦
              let (x, e, n) = from_best cs w' c d in inr (x, ground (arith, e), ground (arith, n))
        ]
  ]

  -- With the candidates pinged in order, Pick either chooses a healthy one that answered, with a
  -- latency that no other answer beats, or no healthy candidate answered, and it fails as
  -- home-landscape-unresolved with the candidates' names.
  pub pick_nearest :
      (cs : List Landscape) (w : W)
      → (answered cs w ≡ [])
          × ((pick s cs w).0
              ≡ err (
                  raise s.problems home_landscape_unresolved
                    "no healthy landscape answered the pre-onboarding ping"
                    (("candidates", strings (landscape_names cs)) ∷ [])))
        ⊎ ((x : Landscape × Duration) × ((pick s cs w).0 ≡ ok x.0)
            × Any (λ y. y ≡ x) (answered cs w)
            × All (λ y. x.1 ≤ℤ y.1) (answered cs w))
  unfolding pick
  pick_nearest cs w = elim (from_none cs w) [
    | inl (a, e) ↦ inl (a, ground (arith, e))
    | inr (x, e, n) ↦ inr (x, ground (arith, e), n.0, n.1)
  ]
