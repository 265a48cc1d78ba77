-- ===== src/Guard/Ownership.antt =====
-- The ownership guards of lib/authengine/guard.go: who passes, and what everybody else gets.
use diene_go_auth_engine.Prelude.{
  String, arith, All, Any, List, Option, [], eq_iff, none, some, true, ◌↔◌, ◌≡◌, ◌≢◌, ◌⊎◌, inl, inr,
  refl,
}
use diene_go_auth_engine.Guard.{
  Guard, claim_scope_checker, claim_values, denial, deny, guard_owns, guard_sub, sub_or_all,
  sub_or_any,
}
use diene_go_auth_engine.Guard.Checker.{Holds, has_all_values_iff, has_any_value_iff}
use diene_go_auth_engine.Principal.{Principal}
use diene_go_auth_engine.Problems.{Result, err, ok, ownership_denied, raise}
use diene_go_auth_engine.Guard.Logged.{IsLogged, log-IsLogged}

-- The target is named, it is the caller, and the caller is somebody.
abbrev pub Owns : Principal → Option String → Type 0
Owns p target = (target ≡ some p.subject) × (p.subject ≢ "")

pub guard_owns_iff :
    (p : Principal) (target : Option String) → (guard_owns p target ≡ true) ↔ Owns p target
unfolding guard_owns
guard_owns_iff p none = ground arith
guard_owns_iff p (some s) = ground (arith, eq_iff p.subject s, eq_iff p.subject "")

module _ {W : Type 0} (g : Guard W) (p : Principal) (target : Option String) where
  -- What a refused caller gets: the denial as a problem, and the denial in the log.
  abbrev pub IsDenied : String → List String → W → Result (Unit {0}) × W → Type 0
  IsDenied field values w r =
      (r.0
        ≡ err (
            raise g.problems ownership_denied
              "the caller neither owns the target resource nor holds a required role"
              (denial g p target field values)))
      × IsLogged g (denial g p target field values) w r.1

  deny-IsDenied :
      (field : String) (values : List String) (w : W)
      → IsDenied field values w (deny g p target field values w)
  unfolding deny
  deny-IsDenied field values w = (refl, log-IsLogged g (denial g p target field values) w)

  -- A call that passes or denies, with the denial spelt out
  passes_or_IsDenied :
      (field : String) (values : List String) (w : W) (r : Result (Unit {0}) × W)
      → (r ≡ (ok tt, w)) ⊎ (r ≡ deny g p target field values w)
      → (r ≡ (ok tt, w)) ⊎ IsDenied field values w r
  passes_or_IsDenied field values w r (inl passes) = inl passes
  passes_or_IsDenied field values w r (inr denies) = inr (rw denies (deny-IsDenied field values w))

  -- Guard.Sub passes exactly the owner of a named target, whatever the roles, and leaves the world
  -- alone; everybody else gets the ownership denial as a problem, and the
  -- sink, where there are one and a clock that answers, gets it as one record.
  pub guard_sub_decides :
      (w : W)
      → (((guard_sub g p target w).0 ≡ ok tt) ↔ Owns p target)
        × ((guard_sub g p target w ≡ (ok tt, w)) ⊎ IsDenied "" [] w (guard_sub g p target w))
  unfolding guard_sub deny
  guard_sub_decides w = (
    ground (arith, guard_owns_iff p target),
    passes_or_IsDenied "" [] w (guard_sub g p target w) (ground arith),
  )

module _ {W : Type 0} (g : Guard W) (p : Principal) (target : Option String) (field : String)
    (values : List String) (w : W) (default_checker : g.checker ≡ claim_scope_checker) where
  -- Under the claim checker Guard.SubOrAny passes exactly the owner of a named target and the
  -- holder of at least one listed value, and leaves the world alone; everybody else, so also who
  -- names no target and holds none of the values, gets the ownership denial as a problem, and the
  -- sink, where there are one and a clock that answers, gets it as one record.
  pub sub_or_any_decides :
      (((sub_or_any g p target field values w).0 ≡ ok tt)
        ↔ (Owns p target ⊎ Any (Holds (claim_values p field)) values))
      × ((sub_or_any g p target field values w ≡ (ok tt, w))
          ⊎ IsDenied g p target field values w (sub_or_any g p target field values w))
  unfolding sub_or_any deny
  sub_or_any_decides = (
    ground (arith, guard_owns_iff p target, has_any_value_iff p field values, default_checker),
    passes_or_IsDenied g p target field values w (sub_or_any g p target field values w)
        (ground arith),
  )

  -- Under the claim checker Guard.SubOrAll passes exactly the owner of a named target and the
  -- holder of every listed value, of which there is at least one, and leaves the world alone;
  -- everybody else gets the ownership denial as a problem, and the
  -- sink, where there are one and a clock that answers, gets it as one record.
  pub sub_or_all_decides :
      (((sub_or_all g p target field values w).0 ≡ ok tt)
        ↔ (Owns p target ⊎ ((values ≢ []) × All (Holds (claim_values p field)) values)))
      × ((sub_or_all g p target field values w ≡ (ok tt, w))
          ⊎ IsDenied g p target field values w (sub_or_all g p target field values w))
  unfolding sub_or_all deny
  sub_or_all_decides = (
    ground (arith, guard_owns_iff p target, has_all_values_iff p field values, default_checker),
    passes_or_IsDenied g p target field values w (sub_or_all g p target field values w)
        (ground arith),
  )
