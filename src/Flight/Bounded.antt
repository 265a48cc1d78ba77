-- ===== src/Flight/Bounded.antt =====
-- How much n callers of `tokenFlight.do` (lib/authengine/flight.go) can do: four steps each.
use diene_go_auth_engine.Flight.{
  Action, Flight, Stage, act, close_done, continues, enter, enters, go_on, idle, join, lead,
  mint_returns, minting, new_token_flight, record_outcome, recorded, returned, run, unfile, unfiled,
  waiting, wake,
}
use diene_go_auth_engine.Prelude.{
  All, Bool, false, true, List, Option-cases, [], ◌∷◌, arith, inl, inr, ℕ, zero, suc, ◌+◌, ◌*◌, ◌≤◌,
  ◌<◌, nat_eq, ltb, ◌≡◌, ◌&&◌, if◌then◌else◌, String, refl, Bool-cases, ap, false≢true, length, sym,
  ◌∙◌,
}
use diene_go_auth_engine.Value.{lookup}
use diene_go_auth_engine.Token.{AccessToken}
use diene_go_auth_engine.Problems.{Result}
use diene_go_auth_engine.Onboard.{ready}

-- The routine that an action is a step of
abbrev pub actor : Action → ℕ
actor (enters i k) = i
actor (mint_returns i r) = i
actor (continues i) = i

-- Whether a routine at a stage goes on of its own accord
abbrev may_go_on : Bool → Stage → Bool
may_go_on closed recorded = true
may_go_on closed unfiled = true
may_go_on closed waiting = closed
may_go_on closed _ = false

-- Whether the routine is ready for the action; one that it is not ready for changes nothing.
unfoldable pub enabled : Flight → Action → Bool
enabled s (enters i k) = elim (s.routines i).stage [ idle ↦ true | _ ↦ false ]
enabled s (mint_returns i r) = elim (s.routines i).stage [ minting ↦ true | _ ↦ false ]
enabled s (continues i) = may_go_on (s.heap (s.routines i).call).closed (s.routines i).stage

-- The steps that a routine at a stage has before it, at most
abbrev rank : Stage → ℕ
rank idle = 4
rank minting = 3
rank recorded = 2
rank unfiled = 1
rank waiting = 1
rank returned = 0

abbrev rank_of : Flight → ℕ → ℕ
rank_of s j = rank (s.routines j).stage

-- One where the action is a step of the routine j, and it is ready for it
abbrev hit : Flight → Action → ℕ → ℕ
hit s a j = if enabled s a && nat_eq (actor a) j then 1 else 0

module _ (s : Flight) (i j : ℕ) where
  enter-rank :
      (k : String)
      → (s.routines i).stage ≡ idle
      → rank_of (enter s i k) j + (if nat_eq i j then 1 else 0) ≤ rank_of s j
  unfolding enter join lead
  enter-rank k e = elim (Option-cases (lookup k s.calls)) [
    | inl h ↦ ground arith
    | inr (c, h) ↦ ground arith
  ]

  enters-rank :
      (k : String) (st : Stage)
      → (s.routines i).stage ≡ st
      → rank_of (elim st [ idle ↦ enter s i k | _ ↦ s ]) j
          + (if elim st [ idle ↦ true | _ ↦ false ] && nat_eq i j then 1 else 0)
        ≤ rank_of s j
  enters-rank k idle e = enter-rank k e
  enters-rank k _ e = omega arith

  mint_returns-rank :
      (r : Result AccessToken) (st : Stage)
      → (s.routines i).stage ≡ st
      → rank_of (elim st [ minting ↦ record_outcome s i r | _ ↦ s ]) j
          + (if elim st [ minting ↦ true | _ ↦ false ] && nat_eq i j then 1 else 0)
        ≤ rank_of s j
  unfolding record_outcome
  mint_returns-rank r minting e = ground arith
  mint_returns-rank r _ e = omega arith

  go_on-rank :
      (st : Stage)
      → (s.routines i).stage ≡ st
      → rank_of (go_on s i st) j
          + (if may_go_on (s.heap (s.routines i).call).closed st && nat_eq i j then 1 else 0)
        ≤ rank_of s j
  unfolding go_on unfile close_done wake
  go_on-rank recorded e = ground arith
  go_on-rank unfiled e = ground arith
  go_on-rank waiting e = ground arith
  go_on-rank idle e = omega arith
  go_on-rank minting e = omega arith
  go_on-rank returned e = omega arith

act-rank : (s : Flight) (a : Action) (j : ℕ) → rank_of (act s a) j + hit s a j ≤ rank_of s j
unfolding act enabled
act-rank s (enters i k) j = enters-rank s i j k (s.routines i).stage refl
act-rank s (mint_returns i r) j = mint_returns-rank s i j r (s.routines i).stage refl
act-rank s (continues i) j = go_on-rank s i j (s.routines i).stage refl

-- The steps that the first n routines have before them, at most
pub total : ℕ → Flight → ℕ
total zero s = 0
total (suc n) s = rank_of s n + total n s

act-hits :
    (s : Flight) (a : Action) (n : ℕ)
    → total n (act s a) + (if enabled s a && ltb (actor a) n then 1 else 0) ≤ total n s
unfolding total
act-hits s a zero = ground arith
act-hits s a (suc n) = ground (arith, act-hits s a n, act-rank s a n)

pub act-total :
    (s : Flight) (a : Action) (n : ℕ)
    → actor a < n
    → total n (act s a) + (if enabled s a then 1 else 0) ≤ total n s
act-total s a n h = ground (arith, act-hits s a n)

pub total-new : (n : ℕ) → total n new_token_flight ≡ 4 * n
unfolding total new_token_flight
total-new zero = omega arith
total-new (suc n) = omega (arith, total-new n)

elim_idle :
    (s s' : Flight) (st : Stage)
    → elim st [ idle ↦ true | _ ↦ false ] ≡ false
    → elim st [ idle ↦ s' | _ ↦ s ] ≡ s
elim_idle s s' idle h = absurd (false≢true (sym h))
elim_idle s s' _ h = refl

elim_minting :
    (s s' : Flight) (st : Stage)
    → elim st [ minting ↦ true | _ ↦ false ] ≡ false
    → elim st [ minting ↦ s' | _ ↦ s ] ≡ s
elim_minting s s' minting h = absurd (false≢true (sym h))
elim_minting s s' _ h = refl

go_on-idle :
    (s : Flight) (i : ℕ) (st : Stage)
    → may_go_on (s.heap (s.routines i).call).closed st ≡ false
    → go_on s i st ≡ s
unfolding go_on
go_on-idle s i recorded h = absurd (false≢true (sym h))
go_on-idle s i unfiled h = absurd (false≢true (sym h))
go_on-idle s i waiting h = rw h refl
go_on-idle s i idle h = refl
go_on-idle s i minting h = refl
go_on-idle s i returned h = refl

act-disabled : (s : Flight) (a : Action) → enabled s a ≡ false → act s a ≡ s
unfolding act enabled
act-disabled s (enters i k) h = elim_idle s (enter s i k) (s.routines i).stage h
act-disabled s (mint_returns i r) h = elim_minting s (record_outcome s i r) (s.routines i).stage h
act-disabled s (continues i) h = go_on-idle s i (s.routines i).stage h

-- The steps of a schedule that their routines are ready for
unfoldable pub effective : Flight → List Action → List Action
unfolding act enabled
effective s [] = []
effective s (a ∷ actions) =
    let rest = effective (act s a) actions in if enabled s a then a ∷ rest else rest

pub run-effective :
    (actions : List Action) (s : Flight) → run s (effective s actions) ≡ run s actions
unfolding run effective
run-effective [] s = refl
run-effective (a ∷ actions) s = elim (Bool-cases (enabled s a)) [
  | inl ready ↦ rw ready (run-effective actions (act s a))
  | inr idles ↦ rw idles (
      ap (λ s'. run s' (effective (act s a) actions)) (sym (act-disabled s a idles))
      ∙ run-effective actions (act s a))
]

pub effective-total :
    (n : ℕ) (actions : List Action) (s : Flight)
    → All (λ a. actor a < n) actions
    → length (effective s actions) + total n (run s actions) ≤ total n s
unfolding effective run
effective-total n [] s h = omega arith
effective-total n (a ∷ actions) s h =
    ground (arith, effective-total n actions (act s a) h.1, act-total s a n h.0)
