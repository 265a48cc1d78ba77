-- ===== src/Flight/Outcomes.antt =====
-- What holds of every token that a mint of lib/authengine/flight.go returned for its key holds of
-- every token that a caller gets, its own key's.
use diene_go_auth_engine.Prelude.{
  Bool-cases, List, Option-cases, String, [], ◌∷◌, arith, inl, inr, refl, some, ℕ, ◌≡◌, nat_eq,
}
use diene_go_auth_engine.Flight.{
  Action, Flight, Stage, act, after, close_done, continues, enter, enters, go_on, idle, join, lead,
  mint_returns, minting, new_token_flight, record_outcome, recorded, returned, run, unfile, unfiled,
  waiting, wake,
}
use diene_go_auth_engine.Flight.Invariant.{Inv, Inv-new_token_flight}
use diene_go_auth_engine.Flight.Single.{act-Inv, returns_its_mint}
use diene_go_auth_engine.Token.{AccessToken}
use diene_go_auth_engine.Problems.{Result, ok}
use diene_go_auth_engine.Value.{lookup}

module _ (P : String → AccessToken → Type 0) where
  -- A mint that returns under a key, where its routine is inside one
  abbrev pub Mints : Flight → Action → Type 0
  Mints s (mint_returns i r) =
      (t : AccessToken) (k : String)
      → (s.routines i).stage ≡ minting
      → (s.routines i).key ≡ k
      → r ≡ ok t
      → P k t
  Mints s (enters i k) = Unit {0}
  Mints s (continues i) = Unit {0}

  -- Every mint of a schedule returns for its key.
  abbrev pub AllMint : Flight → List Action → Type 0
  AllMint s [] = Unit {0}
  AllMint s (a ∷ actions) = Mints s a × AllMint (act s a) actions

  abbrev Owned : Flight → Type 0
  Owned s =
      (c : ℕ) (t : AccessToken) (k : String)
      → (s.heap c).minted ≡ some (ok t)
      → (s.heap c).owner ≡ k
      → P k t

  module _ (s : Flight) (o : Owned s) (i : ℕ) where
    enter-Owned : (k : String) → Owned (enter s i k)
    unfolding enter join lead
    enter-Owned k c t j h e = elim (Option-cases (lookup k s.calls)) [
      | inr (d, q) ↦ o c t j (ground (arith, h)) (ground (arith, e))
      | inl q ↦ elim (Bool-cases (nat_eq s.next c)) [
        | inl new ↦ absurd (ground (arith, h))
        | inr old ↦ o c t j (ground (arith, h)) (ground (arith, e))
      ]
    ]

    record_outcome-Owned :
        (r : Result AccessToken)
        → Inv s
        → (s.routines i).stage ≡ minting
        → Mints s (mint_returns i r)
        → Owned (record_outcome s i r)
    unfolding record_outcome
    record_outcome-Owned r v m good c t j h e = elim (Bool-cases (nat_eq (s.routines i).call c)) [
      | inl own ↦ good t j m (ground (arith, e, v.sound i)) (ground (arith, h))
      | inr other ↦ o c t j (ground (arith, h)) (ground (arith, e))
    ]

    close_done-Owned : Owned (close_done s i)
    unfolding close_done
    close_done-Owned c t j h e = o c t j (ground (arith, h)) (ground (arith, e))

    enters-Owned : (k : String) (st : Stage) → Owned (elim st [ idle ↦ enter s i k | _ ↦ s ])
    enters-Owned k idle = enter-Owned k
    enters-Owned k _ = o

    mint_returns-Owned :
        (r : Result AccessToken) (st : Stage)
        → Inv s
        → (s.routines i).stage ≡ st
        → Mints s (mint_returns i r)
        → Owned (elim st [ minting ↦ record_outcome s i r | _ ↦ s ])
    mint_returns-Owned r minting v e good = record_outcome-Owned r v e good
    mint_returns-Owned r _ v e good = o

    go_on-Owned : (st : Stage) → Owned (go_on s i st)
    unfolding go_on unfile wake
    go_on-Owned recorded = o
    go_on-Owned unfiled = close_done-Owned
    go_on-Owned waiting = elim (Bool-cases (s.heap (s.routines i).call).closed) [
      | inl h ↦ rw (h, go_on) o
      | inr h ↦ rw (h, go_on) o
    ]
    go_on-Owned _ = o

  act-Owned : (s : Flight) (a : Action) → Inv s → Mints s a → Owned s → Owned (act s a)
  unfolding act
  act-Owned s (enters i k) v good o = enters-Owned s o i k (s.routines i).stage
  act-Owned s (mint_returns i r) v good o =
      mint_returns-Owned s o i r (s.routines i).stage v refl good
  act-Owned s (continues i) v good o = go_on-Owned s o i (s.routines i).stage

  run-Owned :
      (s : Flight) (actions : List Action)
      → Inv s
      → AllMint s actions
      → Owned s
      → Owned (run s actions)
  unfolding run
  run-Owned s [] v good o = o
  run-Owned s (a ∷ actions) v good o =
      run-Owned (act s a) actions (act-Inv s a v) good.1 (act-Owned s a v good.0 o)

  -- Whatever the schedule: where every mint returns, for the key of its call, a token of which a
  -- predicate holds at that key, the predicate holds of each token that a goroutine returns, at the
  -- key that the goroutine asked for.
  pub returns_for_its_key :
      (actions : List Action) (i : ℕ) (t : AccessToken)
      → AllMint new_token_flight actions
      → ((after actions).routines i).stage ≡ returned
      → ((after actions).routines i).result ≡ ok t
      → P ((after actions).routines i).key t
  unfolding new_token_flight
  returns_for_its_key actions i t good done is =
      let (m, k) = returns_its_mint actions i done in
      run-Owned new_token_flight actions Inv-new_token_flight good
        (λ c t' j h e. absurd (ground arith)) ((after actions).routines i).call t
        ((after actions).routines i).key (ground (arith, m)) k
