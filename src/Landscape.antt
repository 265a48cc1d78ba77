-- ===== src/Landscape.antt =====
-- lib/onboard/landscape.go: the selector of a caller's home landscape.
pub mod Nearest
pub mod First
use diene_go_auth_engine.Prelude.{
  Bool, List, Option, String, [], arith, if◌then◌else◌, map, none, not, some, true, ◌==◌, ◌∷◌,
}
use diene_go_auth_engine.Time.{Duration}
use diene_go_auth_engine.Effect.{Eff, fail, on_err, pure}
use diene_go_auth_engine.Principal.{Principal}
use diene_go_auth_engine.Problems.{
  Problems, Result, config_invalid, err, home_landscape_unresolved, ok, plain, provider_unavailable,
  raise, raise_from,
}
use diene_go_auth_engine.Value.{Value, strings, text}
use diene_go_auth_engine.Claims.{claim_home_landscape}
use diene_go_auth_engine.Prelude.Int.{ltb_ℤ}

pub record Landscape : Type 0 where
  pub name : String
  pub display : String
  pub region : String
  pub healthy : Bool

-- The Pinger seam
pub record Pinger (W : Type 0) : Type 0 where
  pub ping : Landscape → Eff W Duration

-- The ClaimWriter seam of sync.go
pub record ClaimWriter (W : Type 0) : Type 0 where
  pub set_claim : String → String → Value → Eff W (Unit {0})

pub record Selector (W : Type 0) : Type 0 where
  pub pinger : Pinger W
  pub problems : Problems

-- `find`
unfoldable pub find : List Landscape → String → Option Landscape
find [] name = none
find (candidate ∷ candidates) name =
    if candidate.name == name then some candidate else find candidates name

-- `names`
unfoldable pub landscape_names : List Landscape → List String
landscape_names candidates = map (λ c. c.name) candidates

-- The variables chosen and best of Pick, none before a candidate was reached
abbrev pub Best : Type 0
Best = Option (Landscape × Duration)

-- A candidate that answered
unfoldable pub improve : Best → Landscape → Duration → Best
improve none candidate latency = some (candidate, latency)
improve (some (chosen, best)) candidate latency =
    if ltb_ℤ latency best then some (candidate, latency) else some (chosen, best)

module _ {W : Type 0} where
  -- NewSelector
  unfoldable pub new_selector : Option Problems → Option (Pinger W) → Result (Selector W)
  new_selector none pinger = err (plain "auth-engine onboarding requires a problem factory")
  new_selector (some p) none =
      err (raise p config_invalid "a pinger is required to pick a home landscape by latency" [])
  new_selector (some p) (some pinger) = ok (record { pinger = pinger; problems = p })

  -- One turn of the loop of Pick
  unfoldable pub probe : Selector W → Best → Landscape → W → Best × W
  probe s best candidate w =
      if not candidate.healthy
      then (best, w)
      else (let (r, w') = s.pinger.ping candidate w in
          (elim r [ err e ↦ best | ok latency ↦ improve best candidate latency ], w'))

  unfoldable pub probe_all : Selector W → Best → List Landscape → W → Best × W
  probe_all s best [] w = (best, w)
  probe_all s best (candidate ∷ candidates) w =
      let (best', w') = probe s best candidate w in probe_all s best' candidates w'

  -- Selector.Pick
  unfoldable pub pick : Selector W → List Landscape → Eff W Landscape
  pick s candidates w =
      let (best, w') = probe_all s none candidates w in
      elim best [
        | some (chosen, latency) ↦ (ok chosen, w')
        | none ↦ (
          err (
              raise s.problems home_landscape_unresolved
                "no healthy landscape answered the pre-onboarding ping"
                (("candidates", strings (landscape_names candidates)) ∷ [])),
          w',
        )
      ]

  -- Selector.Home
  unfoldable pub home : Selector W → Principal → List Landscape → Eff W Landscape
  home s p candidates = elim p.home_landscape [
    | some name ↦ elim (find candidates name) [
      | some declared ↦ pure declared
      | none ↦ pure (record { name = name; display = ""; region = ""; healthy = true })
    ]
    | none ↦ pick s candidates
  ]

  -- Selector.Claim
  unfoldable pub claim_home :
      Selector W → Option (ClaimWriter W) → String → Landscape → Eff W (Unit {0})
  claim_home s none subject landscape =
      fail (
        raise s.problems config_invalid "a claim writer is required to record the home landscape"
          [])
  claim_home s (some claims) subject landscape =
      on_err
        (λ e.
          raise_from s.problems provider_unavailable e
            "the home-landscape claim could not be written back"
            (("landscape", text landscape.name) ∷ []))
        (claims.set_claim subject claim_home_landscape (text landscape.name))
