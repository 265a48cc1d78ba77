-- ===== src/Guard.antt =====
-- lib/authengine/guard.go and policy.go: the nullable-userId ownership guard, the registration
-- guard and the named claim policies. A decision is an action, since a denial is logged.
pub mod Checker
pub mod Logged
pub mod Ownership
pub mod Policies
use diene_go_auth_engine.Prelude.{
  ℕ, String, Bool, true, false, not, ◌&&◌, ◌||◌, Option, none, some, List, [], ◌∷◌, map, ◌==◌,
  contains, if◌then◌else◌,
}
use diene_go_auth_engine.Value.{Value, text, null, flag, strings, Assoc, lookup}
use diene_go_auth_engine.Problems.{
  Error, Result, ok, err, Problems, raise, plain, ownership_denied, registration_missing,
  policy_unknown,
}
use diene_go_auth_engine.Effect.{
  Eff, pure, fail, continue, ◌>>=◌, ◌>>◌, Clock, LogRecord, LoggerSink,
}
use diene_go_auth_engine.Claims.{claims_list, claim_roles, claim_scope}
use diene_go_auth_engine.Principal.{Principal, or_zero, registered, registration_claim}
use diene_go_auth_engine.Strings.{sort}

-- The ScopeChecker seam
pub record ScopeChecker : Type 0 where
  pub scope : Principal → String → List String
  pub has_any : Principal → String → List String → Bool
  pub has_all : Principal → String → List String → Bool

-- ClaimScopeChecker.Scope
unfoldable pub claim_values : Principal → String → List String
claim_values p field =
    if field == claim_roles
    then p.roles
    else if field == claim_scope
    then p.scopes
    else or_zero [] (claims_list p.claims field)

-- The loops of ClaimScopeChecker.HasAny and HasAll
unfoldable pub any_granted : List String → List String → Bool
any_granted granted [] = false
any_granted granted (required ∷ values) =
    let rest = any_granted granted values in if contains granted required then true else rest

unfoldable pub all_granted : List String → List String → Bool
all_granted granted [] = true
all_granted granted (required ∷ values) =
    let rest = all_granted granted values in if not (contains granted required) then false else rest

-- ClaimScopeChecker.HasAny
unfoldable pub has_any_value : Principal → String → List String → Bool
has_any_value p field values = any_granted (claim_values p field) values

-- ClaimScopeChecker.HasAll
unfoldable pub has_all_values : Principal → String → List String → Bool
has_all_values p field [] = false
has_all_values p field (v ∷ values) = all_granted (claim_values p field) (v ∷ values)

-- ClaimScopeChecker
abbrev pub claim_scope_checker : ScopeChecker
claim_scope_checker = record {
  scope = claim_values;
  has_any = has_any_value;
  has_all = has_all_values;
}

pub record Guard (W : Type 0) : Type 0 where
  pub problems : Problems
  pub checker : ScopeChecker
  pub logs : Option (LoggerSink W)
  pub clock : Option (Clock W)

pub record GuardOptions (W : Type 0) : Type 0 where
  pub problems : Option Problems
  pub checker : Option ScopeChecker
  pub logs : Option (LoggerSink W)
  pub clock : Option (Clock W)

-- guardOwns
unfoldable pub guard_owns : Principal → Option String → Bool
guard_owns p none = false
guard_owns p (some target) = p.subject == target && not (p.subject == "")

-- textOrNil
unfoldable pub text_or_nil : Option String → Value
text_or_nil none = null
text_or_nil (some target) = text target

pub record Policy : Type 0 where
  pub kind : String
  pub field : String
  pub target : List String

abbrev pub policy_any : String
policy_any = "any"

abbrev pub policy_all : String
policy_all = "all"

abbrev pub PolicySet : Type 0
PolicySet = Assoc Policy

-- PolicySet.Names
unfoldable pub policy_names : PolicySet → List String
policy_names s = sort (map (λ entry. entry.0) s)

module _ {W : Type 0} where
  -- NewGuard
  unfoldable pub new_guard : GuardOptions W → Result (Guard W)
  new_guard options = elim options.problems [
    | none ↦ err (plain "auth-engine guard requires a problem factory")
    | some problems ↦ ok (record {
      problems = problems;
      checker = or_zero claim_scope_checker options.checker;
      logs = options.logs;
      clock = options.clock;
    })
  ]

  -- The record that Guard.log emits.
  abbrev pub emit_denial : LoggerSink W → Clock W → Assoc Value → W → W
  emit_denial sink clock data' w =
      let (now, w') = clock.now_utc w in
      elim now [
        | err e ↦ w'
        | ok t ↦
            (sink.emit
              (record { time = t; level = "info"; message = "auth failed"; fields = data' }) w').1
      ]

  -- Guard.log: what it returns is dropped.
  unfoldable pub log : Guard W → Assoc Value → W → W
  log g data' w = elim g.logs [
    | none ↦ w
    | some sink ↦ elim g.clock [ none ↦ w | some clock ↦ emit_denial sink clock data' w ]
  ]

  -- The payload of Guard.deny
  unfoldable pub denial : Guard W → Principal → Option String → String → List String → Assoc Value
  denial g p target field values =
      ("subject", text p.subject)
      ∷ ("target", text_or_nil target)
      ∷ ("ownsSub", flag false)
      ∷ ("field", text field)
      ∷ ("required", strings values)
      ∷ ("granted", strings (g.checker.scope p field))
      ∷ []

  -- Guard.deny
  unfoldable pub deny :
      Guard W → Principal → Option String → String → List String → Eff W (Unit {0})
  deny g p target field values w =
      let data' = denial g p target field values in
      (
        err (
            raise g.problems ownership_denied
              "the caller neither owns the target resource nor holds a required role" data'),
        log g data' w,
      )

  -- Guard.Sub
  unfoldable pub guard_sub : Guard W → Principal → Option String → Eff W (Unit {0})
  guard_sub g p target = if guard_owns p target then pure tt else deny g p target "" []

  -- Guard.SubOrAny
  unfoldable pub sub_or_any :
      Guard W → Principal → Option String → String → List String → Eff W (Unit {0})
  sub_or_any g p target field values =
      if guard_owns p target || g.checker.has_any p field values
      then pure tt
      else deny g p target field values

  -- Guard.SubOrAll
  unfoldable pub sub_or_all :
      Guard W → Principal → Option String → String → List String → Eff W (Unit {0})
  sub_or_all g p target field values =
      if guard_owns p target || g.checker.has_all p field values
      then pure tt
      else deny g p target field values

  -- Guard.Registered
  unfoldable pub guard_registered :
      (String → String) → Guard W → Principal → String → Eff W (Unit {0})
  guard_registered slugify g p backend =
      if registered slugify p backend
      then pure tt
      else fail (
          raise g.problems registration_missing
            "the caller has not completed onboarding against this backend"
            (("subject", text p.subject)
              ∷ ("backend", text backend)
              ∷ ("claim", text (registration_claim slugify backend))
              ∷ []))

  -- Guard.satisfies
  unfoldable pub satisfies : Guard W → Principal → Policy → Bool
  satisfies g p declared =
      if declared.kind == policy_any
      then g.checker.has_any p declared.field declared.target
      else if declared.kind == policy_all
      then g.checker.has_all p declared.field declared.target
      else false

  -- The payload of a policy's denial
  unfoldable pub policy_denial : Guard W → Principal → String → Policy → Assoc Value
  policy_denial g p name declared =
      ("subject", text p.subject)
      ∷ ("policy", text name)
      ∷ ("field", text declared.field)
      ∷ ("kind", text declared.kind)
      ∷ ("required", strings declared.target)
      ∷ ("granted", strings (g.checker.scope p declared.field))
      ∷ []

  -- The authorization against a policy that is declared
  unfoldable pub apply_policy : Guard W → Principal → String → Policy → Eff W (Unit {0})
  apply_policy g p name declared w =
      let data' = policy_denial g p name declared in
      if satisfies g p declared then (ok tt, w) else (
        err (
            raise g.problems ownership_denied "the caller does not satisfy the named policy" data'),
        log g data' w,
      )

  -- Guard.Policy
  unfoldable pub guard_policy : Guard W → Principal → PolicySet → String → Eff W (Unit {0})
  unfolding apply_policy
  guard_policy g p policies name = elim (lookup name policies) [
    | none ↦ fail (
        raise g.problems policy_unknown "the named policy is not declared in the auth configuration"
          (("policy", text name) ∷ ("declared", strings (policy_names policies)) ∷ []))
    | some declared ↦ apply_policy g p name declared
  ]
