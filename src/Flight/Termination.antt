-- ===== src/Flight/Termination.antt =====
-- The callers of `tokenFlight.do` (lib/authengine/flight.go) come to an end: their steps are bounded,
-- and while one of them is inside, one of them can go on.
use diene_go_auth_engine.Flight.{
  Action, Flight, Stage, act, after, close_done, continues, enter, enters, go_on, idle, join, lead,
  mint_returns, minting, new_token_flight, record_outcome, recorded, returned, run, unfile, unfiled,
  waiting, wake, Routine,
}
use diene_go_auth_engine.Prelude.{
  All, Bool-cases, List, Option-cases, String, [], ◌∷◌, arith, inl, inr, ℕ, zero, suc, ◌*◌, ◌≤◌,
  ◌<◌, nat_eq, ◌≡◌, ◌≢◌, ◌⊎◌, refl, length, true, false, ltb,
}
use diene_go_auth_engine.Flight.Attended.{
  Attended, Leader, new_token_flight-Attended, run-Attended, act-Attended,
}
use diene_go_auth_engine.Flight.Bounded.{
  actor, effective, effective-total, enabled, run-effective, total-new, act-total, total,
}
use diene_go_auth_engine.Flight.Invariant.{Inv, leads}
use diene_go_auth_engine.Flight.Single.{reached-Inv, act-Inv}
use diene_go_auth_engine.Problems.{Result, ok}
use diene_go_auth_engine.Token.{AccessToken, zero_token}
use diene_go_auth_engine.Value.{lookup}
use diene_go_auth_engine.Onboard.{ready}
use diene_go_auth_engine.Time.{before}

-- The caller is not inside `do`.
abbrev pub IsOutside : Flight → ℕ → Type 0
IsOutside s i = ((s.routines i).stage ≡ idle) ⊎ ((s.routines i).stage ≡ returned)

abbrev pub AllOutside : Flight → Type 0
AllOutside s = (i : ℕ) → IsOutside s i

-- A step of a caller that is inside `do` and ready for it, one of the first n
abbrev pub NextStep : ℕ → Flight → Type 0
NextStep n s =
    (a : Action) × (actor a < n) × ((s.routines (actor a)).stage ≢ idle) × (enabled s a ≡ true)

-- What a routine at a stage does next
abbrev next_action : ℕ → Stage → Action
next_action i minting = mint_returns i (ok zero_token)
next_action i _ = continues i

abbrev routine_of : Flight → ℕ → Routine
routine_of s j = s.routines j

-- A routine stays where it is while others act.
module _ (s : Flight) (i j : ℕ) (other : nat_eq i j ≡ false) where
  enters-other :
      (k : String) (st : Stage)
      → routine_of (elim st [ idle ↦ enter s i k | _ ↦ s ]) j ≡ s.routines j
  unfolding enter join lead
  enters-other k idle = elim (Option-cases (lookup k s.calls)) [
    | inl h ↦ ground (arith, other)
    | inr (c, h) ↦ ground (arith, other)
  ]
  enters-other k _ = refl

  mint_returns-other :
      (r : Result AccessToken) (st : Stage)
      → routine_of (elim st [ minting ↦ record_outcome s i r | _ ↦ s ]) j ≡ s.routines j
  unfolding record_outcome
  mint_returns-other r minting = ground (arith, other)
  mint_returns-other r _ = refl

  go_on-other : (st : Stage) → (go_on s i st).routines j ≡ s.routines j
  unfolding go_on unfile close_done wake
  go_on-other recorded = ground (arith, other)
  go_on-other unfiled = ground (arith, other)
  go_on-other waiting = ground (arith, other)
  go_on-other _ = refl

act-other :
    (s : Flight) (a : Action) (j : ℕ)
    → nat_eq (actor a) j ≡ false
    → (act s a).routines j ≡ s.routines j
unfolding act
act-other s (enters i k) j h = enters-other s i j h k (s.routines i).stage
act-other s (mint_returns i r) j h = mint_returns-other s i j h r (s.routines i).stage
act-other s (continues i) j h = go_on-other s i j h (s.routines i).stage

-- A caller that never acts never enters.
run-idle :
    (n j : ℕ) (actions : List Action) (s : Flight)
    → All (λ a. actor a < n) actions
    → n ≤ j
    → (s.routines j).stage ≡ idle
    → ((run s actions).routines j).stage ≡ idle
unfolding run
run-idle n j [] s h l e = e
run-idle n j (a ∷ actions) s h l e =
    let rest = run-idle n j actions (act s a) h.1 l in ground (arith, act-other s a j, rest, h.0)

leader-enabled :
    (s : Flight) (j : ℕ) (st : Stage)
    → (s.routines j).stage ≡ st
    → leads st ≡ true
    → (st ≢ idle) × (actor (next_action j st) ≡ j) × (enabled s (next_action j st) ≡ true)
unfolding enabled
leader-enabled s j minting e l = (λ q. cc, refl, ground arith)
leader-enabled s j recorded e l = (λ q. cc, refl, ground arith)
leader-enabled s j unfiled e l = (λ q. cc, refl, ground arith)
leader-enabled s j _ e l = absurd (ground arith)

module _ (s : Flight) (n : ℕ) (a : Attended s) (v : Inv s)
    (late : (j : ℕ) → n ≤ j → (s.routines j).stage ≡ idle) where
  led-NextStep : (c : ℕ) → Leader s c → NextStep n s
  led-NextStep c (j, live, is) =
      let (inside, own, ready) = leader-enabled s j (s.routines j).stage refl live in
      elim (Bool-cases (ltb j n)) [
        | inl early ↦
            (next_action j (s.routines j).stage, ground (arith, own), rw own inside, ready)
        | inr beyond ↦ absurd (inside (late j (ground arith)))
      ]

  inside-NextStep :
      (i : ℕ) (st : Stage) → i < n → (s.routines i).stage ≡ st → IsOutside s i ⊎ NextStep n s
  unfolding enabled
  inside-NextStep i idle l e = inl (inl e)
  inside-NextStep i returned l e = inl (inr e)
  inside-NextStep i waiting l e = elim (a (s.routines i).call (ground (arith, v.sound i, e))) [
    | inl shut ↦ inr (continues i, l, (λ q. cc), ground arith)
    | inr leader ↦ inr (led-NextStep (s.routines i).call leader)
  ]
  inside-NextStep i minting l e = inr (led-NextStep (s.routines i).call (i, ground arith, refl))
  inside-NextStep i recorded l e = inr (led-NextStep (s.routines i).call (i, ground arith, refl))
  inside-NextStep i unfiled l e = inr (led-NextStep (s.routines i).call (i, ground arith, refl))

  -- The first m callers are outside, or one of the callers has a next step.
  below_or_NextStep : (m : ℕ) → m ≤ n → ((i : ℕ) → i < m → IsOutside s i) ⊎ NextStep n s
  below_or_NextStep zero l = inl (λ i h. absurd (omega (arith, h)))
  below_or_NextStep (suc m) l = elim (below_or_NextStep m (omega (arith, l))) [
    | inr next ↦ inr next
    | inl before ↦ elim (inside-NextStep m (s.routines m).stage (omega (arith, l)) refl) [
      | inr next ↦ inr next
      | inl here ↦ inl (λ i h. elim (Bool-cases (ltb i m)) [
        | inl early ↦ before i (ground arith)
        | inr last ↦ let same : m ≡ i = ground arith in rw (← same) here
      ])
    ]
  ]

  outside_or_NextStep : AllOutside s ⊎ NextStep n s
  outside_or_NextStep = elim (below_or_NextStep n (omega arith)) [
    | inr next ↦ inr next
    | inl before ↦ inl (λ i. elim (Bool-cases (ltb i n)) [
      | inl early ↦ before i (ground arith)
      | inr beyond ↦ inl (late i (ground arith))
    ])
  ]

new_token_flight-idle : (j : ℕ) → (new_token_flight.routines j).stage ≡ idle
unfolding new_token_flight
new_token_flight-idle j = refl

-- Steps of callers that are inside come to an end with every caller outside.
run-AllOutside :
    (n m : ℕ) (s : Flight)
    → total n s ≤ m
    → Attended s
    → Inv s
    → ((j : ℕ) → n ≤ j → (s.routines j).stage ≡ idle)
    → (more : List Action) × All (λ a. actor a < n) more × AllOutside (run s more)
unfolding run
run-AllOutside n zero s l a v late = elim (outside_or_NextStep s n a v late) [
  | inl done ↦ ([], tt, done)
  | inr (x, early, inside, ready) ↦ absurd (ground (arith, act-total s x n early, ready))
]
run-AllOutside n (suc m) s l a v late = elim (outside_or_NextStep s n a v late) [
  | inl done ↦ ([], tt, done)
  | inr (x, early, inside, ready) ↦
      let less = act-total s x n early in
      let (more, own, out) =
        run-AllOutside n m (act s x) (ground (arith, less, ready)) (act-Attended s x a)
          (act-Inv s x v) (λ j b. run-idle n j (x ∷ []) s (early, tt) b (late j b)) in
      (x ∷ more, (early, own), out)
]

-- Termination: n callers of `do`, whose steps interleave in any way, come to the state that the
-- steps come to which their callers are ready for, and these are at most 4 n. Wherever they stand,
-- either each goroutine is outside `do`, not yet in it or returned from it, or one of the n callers is
-- inside and ready for a step, which for one inside its mint is that the mint returns; and some
-- further steps of the n callers bring every goroutine outside.
pub do_terminates :
    (n : ℕ) (actions : List Action)
    → All (λ a. actor a < n) actions
    → (after (effective new_token_flight actions) ≡ after actions)
      × (length (effective new_token_flight actions) ≤ 4 * n)
      × (AllOutside (after actions) ⊎ NextStep n (after actions))
      × ((more : List Action) × All (λ a. actor a < n) more × AllOutside (run (after actions) more))
do_terminates n actions h =
    let s = after actions in
    let a = run-Attended new_token_flight actions new_token_flight-Attended in
    let v = reached-Inv actions in
    let late : (j : ℕ) → n ≤ j → (s.routines j).stage ≡ idle =
      λ j l. run-idle n j actions new_token_flight h l (new_token_flight-idle j) in
    (
      run-effective actions new_token_flight,
      omega (arith, effective-total n actions new_token_flight h, total-new n),
      outside_or_NextStep s n a v late,
      run-AllOutside n (total n s) s (omega arith) a v late,
    )
