-- ===== src/Landscape/First.antt =====
-- Selector.Pick (lib/onboard/landscape.go) agrees with a search of the answers for the first nearest.
use diene_go_auth_engine.Time.{Duration}
use diene_go_auth_engine.Landscape.{
  Landscape, Selector, improve, landscape_names, pick, probe, probe_all,
}
use diene_go_auth_engine.Landscape.Nearest.{answered}
use diene_go_auth_engine.Prelude.{
  Bool-cases, List, Option, Option-cases, [], arith, if◌then◌else◌, inl, inr, none, refl, some, ◌∷◌,
  ◌≡◌,
}
use diene_go_auth_engine.Prelude.Int.{ltb_ℤ}
use diene_go_auth_engine.Problems.{Problems, Result, err, ok, home_landscape_unresolved, raise}
use diene_go_auth_engine.Effect.{Result-cases}
use diene_go_auth_engine.Value.{strings}

-- Of two answers, the second only where it is nearer
abbrev nearer : Landscape × Duration → Option (Landscape × Duration) → Landscape × Duration
nearer x none = x
nearer x (some y) = if ltb_ℤ y.1 x.1 then y else x

-- The first of the answers that none of the others beats
pub first_nearest : List (Landscape × Duration) → Option (Landscape × Duration)
first_nearest [] = none
first_nearest (x ∷ xs) = some (nearer x (first_nearest xs))

-- What Pick returns for a choice
abbrev pub chosen : Problems → List Landscape → Option (Landscape × Duration) → Result Landscape
chosen problems cs (some x) = ok x.0
chosen problems cs none = err (
    raise problems home_landscape_unresolved "no healthy landscape answered the pre-onboarding ping"
      (("candidates", strings (landscape_names cs)) ∷ []))

first_nearest-improve :
    (c c' : Landscape) (d d' : Duration) (xs : List (Landscape × Duration))
    → first_nearest ((c, d) ∷ (c', d') ∷ xs)
      ≡ (if ltb_ℤ d' d then first_nearest ((c', d') ∷ xs) else first_nearest ((c, d) ∷ xs))
unfolding first_nearest
first_nearest-improve c c' d d' xs = elim (Option-cases (first_nearest xs)) [
  | inl q ↦ ground arith
  | inr (y, q) ↦ ground arith
]

module _ {W : Type 0} (s : Selector W) where
  from_some :
      (cs : List Landscape) (w : W) (c : Landscape) (d : Duration)
      → (probe_all s (some (c, d)) cs w).0 ≡ first_nearest ((c, d) ∷ answered s cs w)
  unfolding probe_all answered probe improve
  from_some [] w c d = unfold first_nearest in refl
  from_some (c' ∷ cs) w c d = elim (Bool-cases c'.healthy) [
    | inr skip ↦ ground (arith, from_some cs w c d)
    | inl up ↦
        let w' = (s.pinger.ping c' w).1 in
        elim (Result-cases (s.pinger.ping c' w).0) [
          | inr (lost, er) ↦ ground (arith, from_some cs w' c d)
          | inl (d', er) ↦ ground (
            arith,
            from_some cs w' c d,
            from_some cs w' c' d',
            first_nearest-improve c c' d d' (answered s cs w'),
          )
        ]
  ]

  from_nothing :
      (cs : List Landscape) (w : W) → (probe_all s none cs w).0 ≡ first_nearest (answered s cs w)
  unfolding probe_all answered probe improve
  from_nothing [] w = unfold first_nearest in refl
  from_nothing (c ∷ cs) w = elim (Bool-cases c.healthy) [
    | inr skip ↦ ground (arith, from_nothing cs w)
    | inl up ↦
        let w' = (s.pinger.ping c w).1 in
        elim (Result-cases (s.pinger.ping c w).0) [
          | inr (lost, er) ↦ ground (arith, from_nothing cs w')
          | inl (d, er) ↦ ground (arith, from_some cs w' c d)
        ]
  ]

  -- Pick's one pass over the candidates is a search of the answers of the healthy ones, pinged in
  -- order, for the first that none of the others beats: it chooses that one, and fails as
  -- home-landscape-unresolved with the candidates' names where there is none.
  pub pick-first_nearest :
      (cs : List Landscape) (w : W)
      → (pick s cs w).0 ≡ chosen s.problems cs (first_nearest (answered s cs w))
  unfolding pick
  pick-first_nearest cs w = elim (Option-cases (probe_all s none cs w).0) [
    | inl q ↦ ground (arith, from_nothing cs w)
    | inr (x, q) ↦ ground (arith, from_nothing cs w)
  ]
