-- ===== src/Flight/Steps.antt =====
-- Every step of the single-flight group of lib/authengine/flight.go keeps the invariant.
use diene_go_auth_engine.Flight.{
  Flight, idle, join, lead, close_done, minting, record_outcome, recorded, unfile, unfiled, waiting,
  wake,
}
use diene_go_auth_engine.Flight.Invariant.{Inv}
use diene_go_auth_engine.Prelude.{String, arith, eq_iff, eq_refl, none, some, ℕ, ◌≡◌, true}
use diene_go_auth_engine.Value.{lookup, lookup-insert, lookup-remove}
use diene_go_auth_engine.Token.{AccessToken}
use diene_go_auth_engine.Problems.{Result}

module _ (s : Flight) (v : Inv s) (i : ℕ) where
  pub join-Inv :
      (k : String) (c : ℕ)
      → (s.routines i).stage ≡ idle
      → lookup k s.calls ≡ some c
      → Inv (join s i k c)
  unfolding join
  join-Inv k c e h = record {
    sound = λ j. ground (arith, v.sound j, v.filed k c);
    filed = v.filed;
    settled = v.settled;
    single = λ a b ha hb ec. ground (arith, v.single a b);
  }

  pub lead-Inv :
      (k : String) → (s.routines i).stage ≡ idle → lookup k s.calls ≡ none → Inv (lead s i k)
  unfolding lead
  lead-Inv k e h = record {
    sound = λ j. ground (
      arith,
      v.sound j,
      lookup-insert k (s.routines j).key s.next s.calls,
      lookup-insert k k s.next s.calls,
      eq_refl k,
      eq_iff k (s.routines j).key,
    );
    filed = λ k' c h'. ground (arith, lookup-insert k k' s.next s.calls, v.filed k' c, eq_iff k k');
    settled = λ c h' l. ground (arith, v.settled c);
    single = λ a b ha hb ec. ground (arith, v.single a b, v.sound a, v.sound b);
  }

  pub record_outcome-Inv :
      (r : Result AccessToken) → (s.routines i).stage ≡ minting → Inv (record_outcome s i r)
  unfolding record_outcome
  record_outcome-Inv r e = record {
    sound = λ j. ground (arith, v.sound j, v.sound i, v.single i j);
    filed = λ k' c h'. ground (arith, v.filed k' c);
    settled = λ c h' l. ground (arith, v.settled c, v.sound i);
    single = λ a b ha hb ec. ground (arith, v.single a b);
  }

  pub unfile-Inv : (s.routines i).stage ≡ recorded → Inv (unfile s i)
  unfolding unfile
  unfile-Inv e = record {
    sound = λ j. ground (
      arith,
      v.sound j,
      v.sound i,
      v.single i j,
      lookup-remove (s.routines i).key (s.routines j).key s.calls,
      eq_iff (s.routines i).key (s.routines j).key,
    );
    filed = λ k' c h'. ground (arith, lookup-remove (s.routines i).key k' s.calls, v.filed k' c);
    settled = λ c h' l. ground (arith, v.settled c);
    single = λ a b ha hb ec. ground (arith, v.single a b);
  }

  pub close_done-Inv : (s.routines i).stage ≡ unfiled → Inv (close_done s i)
  unfolding close_done
  close_done-Inv e = record {
    sound = λ j. ground (arith, v.sound j, v.sound i, v.single i j);
    filed = λ k' c h'. ground (arith, v.filed k' c);
    settled = λ c h' l. ground (arith, v.settled c, v.sound i);
    single = λ a b ha hb ec. ground (arith, v.single a b);
  }

  pub wake-Inv :
      (s.routines i).stage ≡ waiting → (s.heap (s.routines i).call).closed ≡ true → Inv (wake s i)
  unfolding wake
  wake-Inv e h = record {
    sound = λ j. ground (arith, v.sound j, v.sound i, v.settled (s.routines i).call);
    filed = v.filed;
    settled = v.settled;
    single = λ a b ha hb ec. ground (arith, v.single a b);
  }
