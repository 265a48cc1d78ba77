-- ===== src/Flight/Attended.antt =====
-- No waiter of tokenFlight.do (lib/authengine/flight.go) is left behind: a call that is not closed
-- has a leader that will close it.
use diene_go_auth_engine.Prelude.{
  Bool-cases, List, Option-cases, String, [], ◌∷◌, arith, inl, inr, refl, true, ℕ, ◌<◌, ◌≡◌, ◌⊎◌,
  nat_eq, false≢true,
}
use diene_go_auth_engine.Flight.{
  Action, Flight, Stage, act, after, close_done, continues, enter, enters, go_on, idle, join, lead,
  mint_returns, minting, new_token_flight, record_outcome, recorded, returned, run, unfile, unfiled,
  waiting, wake,
}
use diene_go_auth_engine.Flight.Invariant.{leads}
use diene_go_auth_engine.Token.{AccessToken, zero_token}
use diene_go_auth_engine.Problems.{Result, ok}
use diene_go_auth_engine.Value.{lookup}
use diene_go_auth_engine.Flight.Single.{reached-Inv}

-- A routine that leads the call
abbrev pub Leader : Flight → ℕ → Type 0
Leader s c = (j : ℕ) × (leads (s.routines j).stage ≡ true) × ((s.routines j).call ≡ c)

abbrev pub Attended : Flight → Type 0
Attended s = (c : ℕ) → c < s.next → ((s.heap c).closed ≡ true) ⊎ Leader s c

module _ (s : Flight) (a : Attended s) (i : ℕ) where
  join-Attended : (k : String) (d : ℕ) → (s.routines i).stage ≡ idle → Attended (join s i k d)
  unfolding join
  join-Attended k d e c l = elim (a c l) [
    | inl shut ↦ inl shut
    | inr (j, live, is) ↦ inr (j, ground arith, ground arith)
  ]

  lead-Attended : (k : String) → (s.routines i).stage ≡ idle → Attended (lead s i k)
  unfolding lead
  lead-Attended k e c l = elim (Bool-cases (nat_eq s.next c)) [
    | inl new ↦ inr (i, ground arith, ground arith)
    | inr old ↦ elim (a c (ground arith)) [
      | inl shut ↦ inl (ground arith)
      | inr (j, live, is) ↦ inr (j, ground arith, ground arith)
    ]
  ]

  record_outcome-Attended :
      (r : Result AccessToken) → (s.routines i).stage ≡ minting → Attended (record_outcome s i r)
  unfolding record_outcome
  record_outcome-Attended r e c l = elim (a c l) [
    | inl shut ↦ inl (ground arith)
    | inr (j, live, is) ↦ inr (j, ground arith, ground arith)
  ]

  unfile-Attended : (s.routines i).stage ≡ recorded → Attended (unfile s i)
  unfolding unfile
  unfile-Attended e c l = elim (a c l) [
    | inl shut ↦ inl shut
    | inr (j, live, is) ↦ inr (j, ground arith, ground arith)
  ]

  close_done-Attended : (s.routines i).stage ≡ unfiled → Attended (close_done s i)
  unfolding close_done
  close_done-Attended e c l = elim (a c l) [
    | inl shut ↦ inl (ground arith)
    | inr (j, live, is) ↦ elim (Bool-cases (nat_eq i j)) [
      | inl same ↦ inl (ground arith)
      | inr other ↦ inr (j, ground arith, ground arith)
    ]
  ]

  wake-Attended : (s.routines i).stage ≡ waiting → Attended (wake s i)
  unfolding wake
  wake-Attended e c l = elim (a c l) [
    | inl shut ↦ inl shut
    | inr (j, live, is) ↦ inr (j, ground arith, ground arith)
  ]

  enter-Attended : (k : String) → (s.routines i).stage ≡ idle → Attended (enter s i k)
  unfolding enter
  enter-Attended k e = elim (Option-cases (lookup k s.calls)) [
    | inl h ↦ rw (h, enter) (lead-Attended k e)
    | inr (c, h) ↦ rw (h, enter) (join-Attended k c e)
  ]

  enters-Attended :
      (k : String) (st : Stage)
      → (s.routines i).stage ≡ st
      → Attended (elim st [ idle ↦ enter s i k | _ ↦ s ])
  enters-Attended k idle e = enter-Attended k e
  enters-Attended k _ e = a

  mint_returns-Attended :
      (r : Result AccessToken) (st : Stage)
      → (s.routines i).stage ≡ st
      → Attended (elim st [ minting ↦ record_outcome s i r | _ ↦ s ])
  mint_returns-Attended r minting e = record_outcome-Attended r e
  mint_returns-Attended r _ e = a

  go_on-Attended : (st : Stage) → (s.routines i).stage ≡ st → Attended (go_on s i st)
  unfolding go_on
  go_on-Attended recorded e = unfile-Attended e
  go_on-Attended unfiled e = close_done-Attended e
  go_on-Attended waiting e = elim (Bool-cases (s.heap (s.routines i).call).closed) [
    | inl h ↦ rw (h, go_on) (wake-Attended e)
    | inr h ↦ rw (h, go_on) a
  ]
  go_on-Attended _ e = a

pub act-Attended : (s : Flight) (x : Action) → Attended s → Attended (act s x)
unfolding act
act-Attended s (enters i k) a = enters-Attended s a i k (s.routines i).stage refl
act-Attended s (mint_returns i r) a = mint_returns-Attended s a i r (s.routines i).stage refl
act-Attended s (continues i) a = go_on-Attended s a i (s.routines i).stage refl

pub run-Attended : (s : Flight) (actions : List Action) → Attended s → Attended (run s actions)
unfolding run
run-Attended s [] a = a
run-Attended s (x ∷ actions) a = run-Attended (act s x) actions (act-Attended s x a)

pub new_token_flight-Attended : Attended new_token_flight
unfolding new_token_flight
new_token_flight-Attended c l = absurd (omega (arith, l))

-- The schedule in which a leader at a stage finishes its call, and the waiter wakes
abbrev finish : Stage → ℕ → ℕ → List Action
finish minting j i = mint_returns j (ok zero_token) ∷ continues j ∷ continues j ∷ continues i ∷ []
finish recorded j i = continues j ∷ continues j ∷ continues i ∷ []
finish unfiled j i = continues j ∷ continues i ∷ []
finish _ j i = continues i ∷ []

finish-returns :
    (s : Flight) (i j : ℕ) (st : Stage)
    → (s.routines i).stage ≡ waiting
    → (s.routines j).stage ≡ st
    → leads st ≡ true
    → (s.routines j).call ≡ (s.routines i).call
    → ((run s (finish st j i)).routines i).stage ≡ returned
unfolding run act go_on record_outcome unfile close_done wake
finish-returns s i j minting hi hj l e = ground arith
finish-returns s i j recorded hi hj l e = ground arith
finish-returns s i j unfiled hi hj l e = ground arith
finish-returns s i j _ hi hj l e = absurd (false≢true l)

wakes-returns :
    (s : Flight) (i : ℕ)
    → (s.routines i).stage ≡ waiting
    → (s.heap (s.routines i).call).closed ≡ true
    → ((run s (continues i ∷ [])).routines i).stage ≡ returned
unfolding run act go_on wake
wakes-returns s i h c = ground arith

-- Nobody is stranded: after any schedule, for a goroutine that waits on a call there are further
-- steps of the schedule that bring it to return.
pub waiter_can_return :
    (actions : List Action) (i : ℕ)
    → ((after actions).routines i).stage ≡ waiting
    → (more : List Action) × (((run (after actions) more).routines i).stage ≡ returned)
waiter_can_return actions i h =
    let s = after actions in
    let v = reached-Inv actions in
    elim (run-Attended new_token_flight actions new_token_flight-Attended (s.routines i).call
      (ground (arith, v.sound i, h))) [
        | inl shut ↦ (continues i ∷ [], wakes-returns s i h shut)
        | inr (j, live, is) ↦ (
          finish (s.routines j).stage j i,
          finish-returns s i j (s.routines j).stage h refl live is,
        )
      ]
