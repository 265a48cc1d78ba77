-- ===== src/Flight.antt =====
-- lib/authengine/flight.go: the single-flight group under a token cache. Goroutines are numbered;
-- between two of them anything may happen, so `tokenFlight.do` is cut into the steps that the mutex
-- and the channel make atomic, and a schedule is any list of such steps.
pub mod Invariant
pub mod Steps
pub mod Single
pub mod Attended
pub mod Bounded
pub mod Termination
pub mod Outcomes
use diene_go_auth_engine.Token.{AccessToken, zero_token}
use diene_go_auth_engine.Value.{Assoc, insert, lookup, remove}
use diene_go_auth_engine.Prelude.{
  Bool, List, Option, String, [], arith, false, if◌then◌else◌, nat_eq, none, some, suc, true, ℕ,
  ◌∷◌,
}
use diene_go_auth_engine.Problems.{Result, ok}

-- tokenCall, on the heap. `owner` and `minted` are for the proofs: the key that the call was filed
-- under, and what its mint returned.
pub record Call : Type 0 where
  pub outcome : Result AccessToken
  pub closed : Bool
  pub owner : String
  pub minted : Option (Result AccessToken)

-- Where a goroutine stands in `do`: before it, blocked on the channel of the call that it joined,
-- inside its mint, behind the writes to its call, behind the delete, and returned.
pub data Stage : Type 0 where
  idle waiting minting recorded unfiled returned : Stage

pub record Routine : Type 0 where
  pub stage : Stage
  pub key : String
  pub call : ℕ
  pub result : Result AccessToken

pub record Flight : Type 0 where
  pub calls : Assoc ℕ
  pub heap : ℕ → Call
  pub next : ℕ
  pub routines : ℕ → Routine

abbrev pub update : {A : Type 0} → (ℕ → A) → ℕ → A → ℕ → A
update f i a j = if nat_eq i j then a else f j

abbrev pub resting : Routine
resting = record { stage = idle; key = ""; call = 0; result = ok zero_token }

-- newTokenFlight, with no goroutine in it
unfoldable pub new_token_flight : Flight
new_token_flight = record {
  calls = [];
  heap = λ c. record { outcome = ok zero_token; closed = false; owner = ""; minted = none };
  next = 0;
  routines = λ i. resting;
}

-- A routine moves on.
abbrev pub move : Flight → ℕ → Routine → Flight
move s i r = record s { routines = update s.routines i r }

-- The locked entry of `do`: join the call that is filed under the key, or file a new one.
unfoldable pub join : Flight → ℕ → String → ℕ → Flight
join s i k c = move s i (record { stage = waiting; key = k; call = c; result = ok zero_token })

unfoldable pub lead : Flight → ℕ → String → Flight
lead s i k = record {
  calls = insert k s.next s.calls;
  heap =
      update s.heap s.next
        (record { outcome = ok zero_token; closed = false; owner = k; minted = none });
  next = suc s.next;
  routines =
      update s.routines i
        (record { stage = minting; key = k; call = s.next; result = ok zero_token });
}

unfoldable pub enter : Flight → ℕ → String → Flight
enter s i k = elim (lookup k s.calls) [ some c ↦ join s i k c | none ↦ lead s i k ]

-- The mint returns, and the call gets its token and its error.
unfoldable pub record_outcome : Flight → ℕ → Result AccessToken → Flight
record_outcome s i r =
    let t = s.routines i in
    record s {
      heap = update s.heap t.call (record (s.heap t.call) { outcome = r; minted = some r });
      routines = update s.routines i (record t { stage = recorded; result = r });
    }

-- The locked delete
unfoldable pub unfile : Flight → ℕ → Flight
unfile s i =
    let t = s.routines i in
    record s {
      calls = remove t.key s.calls;
      routines = update s.routines i (record t { stage = unfiled });
    }

-- close(pending.done), and the leader returns what its mint returned.
unfoldable pub close_done : Flight → ℕ → Flight
close_done s i =
    let t = s.routines i in
    record s {
      heap = update s.heap t.call (record (s.heap t.call) { closed = true });
      routines = update s.routines i (record t { stage = returned });
    }

-- A receive from the closed channel, and the waiter returns what the call holds.
unfoldable pub wake : Flight → ℕ → Flight
wake s i =
    let t = s.routines i in
    move s i (record t { stage = returned; result = (s.heap t.call).outcome })

pub data Action : Type 0 where
  enters : ℕ → String → Action
  mint_returns : ℕ → Result AccessToken → Action
  continues : ℕ → Action

-- What a routine does next of its own accord; a waiter goes on only when its channel is closed.
unfoldable pub go_on : Flight → ℕ → Stage → Flight
go_on s i recorded = unfile s i
go_on s i unfiled = close_done s i
go_on s i waiting = if (s.heap (s.routines i).call).closed then wake s i else s
go_on s i _ = s

-- One step of the schedule. A step that the routine is not ready for changes nothing.
unfoldable pub act : Flight → Action → Flight
unfolding go_on
act s (enters i k) = elim (s.routines i).stage [ idle ↦ enter s i k | _ ↦ s ]
act s (mint_returns i r) = elim (s.routines i).stage [ minting ↦ record_outcome s i r | _ ↦ s ]
act s (continues i) = go_on s i (s.routines i).stage

unfoldable pub run : Flight → List Action → Flight
run s [] = s
run s (a ∷ actions) = run (act s a) actions

-- The state after a schedule
abbrev pub after : List Action → Flight
after = run new_token_flight
