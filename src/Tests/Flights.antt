-- ===== src/Tests/Flights.antt =====
-- Two goroutines that ask for one token at once, and a third that asks for another.
use diene_go_auth_engine.Prelude.{
  ℕ, some, List, [], ◌∷◌, ◌≡◌, refl, arith, length, ◌*◌, ◌≤◌, ◌⊎◌, All, ◌<◌,
}
use diene_go_auth_engine.Flight.{
  Action, act, after, close_done, continues, enter, enters, go_on, join, lead, mint_returns,
  new_token_flight, record_outcome, returned, run, unfile, wake,
}
use diene_go_auth_engine.Value.{insert, lookup, remove}
use diene_go_auth_engine.Tests.Fixtures.{minted}
use diene_go_auth_engine.Problems.{ok}
use diene_go_auth_engine.Flight.Single.{one_mint_per_key, returns_its_mint}
use diene_go_auth_engine.Flight.Attended.{waiter_can_return}
use diene_go_auth_engine.Flight.Bounded.{effective, actor}
use diene_go_auth_engine.Flight.Termination.{AllOutside, NextStep, do_terminates}

-- The first leads, the second joins it, and the third leads a call of its own.
abbrev started : List Action
started = enters 0 "zinc" ∷ enters 1 "zinc" ∷ enters 2 "lead" ∷ []

abbrev finished : List Action
finished =
    enters 0 "zinc"
    ∷ enters 1 "zinc"
    ∷ enters 2 "lead"
    ∷ mint_returns 0 (ok minted)
    ∷ continues 0
    ∷ continues 0
    ∷ continues 1
    ∷ []

one_mint_per_key_example : ◌≡◌ {A = ℕ} 0 0
unfolding run act enter join lead lookup insert new_token_flight
one_mint_per_key_example = one_mint_per_key started 0 0 refl refl refl

returns_its_mint_example :
    (((after finished).heap ((after finished).routines 1).call).minted
      ≡ some ((after finished).routines 1).result)
    × (((after finished).heap ((after finished).routines 1).call).owner
        ≡ ((after finished).routines 1).key)
unfolding run act enter join lead lookup insert remove new_token_flight record_outcome go_on unfile
    close_done wake
returns_its_mint_example = returns_its_mint finished 1 refl

abbrev served : List Action
served = mint_returns 0 (ok minted) ∷ continues 0 ∷ continues 0 ∷ continues 1 ∷ []

waiter_can_return_example :
    (more : List Action) × (((run (after started) more).routines 1).stage ≡ returned)
unfolding run act enter join lead lookup insert new_token_flight
waiter_can_return_example = waiter_can_return started 1 refl

do_terminates_example :
    (after (effective new_token_flight finished) ≡ after finished)
    × (length (effective new_token_flight finished) ≤ 4 * 3)
    × (AllOutside (after finished) ⊎ NextStep 3 (after finished))
    × ((more : List Action) × All (λ a. actor a < 3) more × AllOutside (run (after finished) more))
do_terminates_example = do_terminates 3 finished (
  omega arith,
  (omega arith, (omega arith, (omega arith, (omega arith, (omega arith, (omega arith, tt)))))),
)
