-- ===== src/Flight/Invariant.antt =====
-- What holds in every state of the single-flight group of lib/authengine/flight.go.
use diene_go_auth_engine.Prelude.{Bool, String, false, none, some, true, ℕ, ◌<◌, ◌≡◌}
use diene_go_auth_engine.Flight.{
  Flight, Routine, Stage, idle, minting, new_token_flight, recorded, returned, unfiled, waiting,
}
use diene_go_auth_engine.Value.{lookup}

-- A routine that leads its call: it filed it, and has not closed it yet.
abbrev pub leads : Stage → Bool
leads minting = true
leads recorded = true
leads unfiled = true
leads _ = false

-- What a routine at a stage may rely on.
abbrev pub SoundAt : Flight → Stage → Routine → Type 0
SoundAt s idle t = Unit {0}
SoundAt s waiting t = ((s.heap t.call).owner ≡ t.key) × (t.call < s.next)
SoundAt s minting t =
    ((s.heap t.call).owner ≡ t.key)
    × (t.call < s.next)
    × ((s.heap t.call).closed ≡ false)
    × (lookup t.key s.calls ≡ some t.call)
    × ((s.heap t.call).minted ≡ none)
SoundAt s recorded t =
    ((s.heap t.call).owner ≡ t.key)
    × (t.call < s.next)
    × ((s.heap t.call).closed ≡ false)
    × (lookup t.key s.calls ≡ some t.call)
    × ((s.heap t.call).minted ≡ some t.result)
    × ((s.heap t.call).outcome ≡ t.result)
SoundAt s unfiled t =
    ((s.heap t.call).owner ≡ t.key)
    × (t.call < s.next)
    × ((s.heap t.call).closed ≡ false)
    × ((s.heap t.call).minted ≡ some t.result)
    × ((s.heap t.call).outcome ≡ t.result)
SoundAt s returned t =
    ((s.heap t.call).owner ≡ t.key) × (t.call < s.next) × ((s.heap t.call).minted ≡ some t.result)

abbrev pub Sound : Flight → Routine → Type 0
Sound s t = SoundAt s t.stage t

pub record Inv (s : Flight) : Type 0 where
  pub sound : (j : ℕ) → Sound s (s.routines j)
  pub filed :
      (k : String) (c : ℕ) → lookup k s.calls ≡ some c → (c < s.next) × ((s.heap c).owner ≡ k)
  pub settled :
      (c : ℕ) → (s.heap c).closed ≡ true → c < s.next → (s.heap c).minted ≡ some (s.heap c).outcome
  pub single :
      (i j : ℕ)
      → leads (s.routines i).stage ≡ true
      → leads (s.routines j).stage ≡ true
      → (s.routines i).call ≡ (s.routines j).call
      → i ≡ j

pub Inv-new_token_flight : Inv new_token_flight
unfolding new_token_flight lookup
Inv-new_token_flight = record {
  sound = λ j. tt;
  filed = λ k c h. cc;
  settled = λ c h l. cc;
  single = λ i j hi hj e. cc;
}
