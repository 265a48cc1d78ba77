-- ===== src/Flight/Single.antt =====
-- What the callers of `tokenFlight.do` (lib/authengine/flight.go) see, whatever the schedule.
use diene_go_auth_engine.Token.{AccessToken}
use diene_go_auth_engine.Flight.{
  Action, Flight, Stage, act, close_done, continues, enter, enters, go_on, idle, mint_returns,
  minting, new_token_flight, record_outcome, recorded, returned, run, unfile, unfiled, waiting,
  wake, after,
}
use diene_go_auth_engine.Prelude.{
  Bool-cases, List, Option-cases, String, [], arith, inl, inr, refl, some, ℕ, ◌∷◌, ◌≡◌,
}
use diene_go_auth_engine.Flight.Invariant.{Inv, Inv-new_token_flight}
use diene_go_auth_engine.Problems.{Result}
use diene_go_auth_engine.Value.{lookup}
use diene_go_auth_engine.Flight.Steps.{
  close_done-Inv, join-Inv, lead-Inv, record_outcome-Inv, unfile-Inv, wake-Inv,
}

module _ (s : Flight) (v : Inv s) (i : ℕ) where
  enter-Inv : (k : String) → (s.routines i).stage ≡ idle → Inv (enter s i k)
  unfolding enter
  enter-Inv k e = elim (Option-cases (lookup k s.calls)) [
    | inl h ↦ rw (h, enter) (lead-Inv s v i k e h)
    | inr (c, h) ↦ rw (h, enter) (join-Inv s v i k c e h)
  ]

  enters-Inv :
      (k : String) (st : Stage)
      → (s.routines i).stage ≡ st
      → Inv (elim st [ idle ↦ enter s i k | _ ↦ s ])
  enters-Inv k idle e = enter-Inv k e
  enters-Inv k _ e = v

  mint_returns-Inv :
      (r : Result AccessToken) (st : Stage)
      → (s.routines i).stage ≡ st
      → Inv (elim st [ minting ↦ record_outcome s i r | _ ↦ s ])
  mint_returns-Inv r minting e = record_outcome-Inv s v i r e
  mint_returns-Inv r _ e = v

  go_on-Inv : (st : Stage) → (s.routines i).stage ≡ st → Inv (go_on s i st)
  unfolding go_on
  go_on-Inv recorded e = unfile-Inv s v i e
  go_on-Inv unfiled e = close_done-Inv s v i e
  go_on-Inv waiting e = elim (Bool-cases (s.heap (s.routines i).call).closed) [
    | inl h ↦ rw (h, go_on) (wake-Inv s v i e h)
    | inr h ↦ rw (h, go_on) v
  ]
  go_on-Inv _ e = v

pub act-Inv : (s : Flight) (a : Action) → Inv s → Inv (act s a)
unfolding act
act-Inv s (enters i k) v = enters-Inv s v i k (s.routines i).stage refl
act-Inv s (mint_returns i r) v = mint_returns-Inv s v i r (s.routines i).stage refl
act-Inv s (continues i) v = go_on-Inv s v i (s.routines i).stage refl

run-Inv : (s : Flight) (actions : List Action) → Inv s → Inv (run s actions)
unfolding run
run-Inv s [] v = v
run-Inv s (a ∷ actions) v = run-Inv (act s a) actions (act-Inv s a v)

pub reached-Inv : (actions : List Action) → Inv (run new_token_flight actions)
reached-Inv actions = run-Inv new_token_flight actions Inv-new_token_flight

-- Whatever the schedule, no two goroutines are inside a mint for one key.
pub one_mint_per_key :
    (actions : List Action) (i j : ℕ)
    → ((after actions).routines i).stage ≡ minting
    → ((after actions).routines j).stage ≡ minting
    → ((after actions).routines i).key ≡ ((after actions).routines j).key
    → i ≡ j
one_mint_per_key actions i j hi hj e =
    let v = reached-Inv actions in ground (arith, v.sound i, v.sound j, v.single i j)

-- Whatever the schedule, what a goroutine returns is what the mint of its call returned, and that
-- call was filed under the key that the goroutine asked for.
pub returns_its_mint :
    (actions : List Action) (i : ℕ)
    → ((after actions).routines i).stage ≡ returned
    → (((after actions).heap ((after actions).routines i).call).minted
        ≡ some ((after actions).routines i).result)
      × (((after actions).heap ((after actions).routines i).call).owner
          ≡ ((after actions).routines i).key)
returns_its_mint actions i h = let v = reached-Inv actions in ground (arith, v.sound i)

-- From any state in which one goroutine is inside the mint of a call and another waits on that
-- call: after the mint returns, two more steps of the first and one of the second bring both to
-- return what the mint returned.
pub waiter_is_served :
    (s : Flight) (i j : ℕ) (r : Result AccessToken)
    → (s.routines i).stage ≡ minting
    → (s.routines j).stage ≡ waiting
    → (s.routines j).call ≡ (s.routines i).call
    → (((run s (mint_returns i r ∷ continues i ∷ continues i ∷ continues j ∷ [])).routines i).stage
        ≡ returned)
      × (((run s (mint_returns i r ∷ continues i ∷ continues i ∷ continues j ∷ [])).routines
            i).result
          ≡ r)
      × (((run s (mint_returns i r ∷ continues i ∷ continues i ∷ continues j ∷ [])).routines
            j).stage
          ≡ returned)
      × (((run s (mint_returns i r ∷ continues i ∷ continues i ∷ continues j ∷ [])).routines
            j).result
          ≡ r)
unfolding act go_on record_outcome unfile close_done wake run
waiter_is_served s i j r hi hj e = ground arith
