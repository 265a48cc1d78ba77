-- ===== src/Claims.antt =====
-- lib/authengine/claims.go: the claim names and the total accessors of a decoded claim set.
use diene_go_auth_engine.Text.{fields}
use diene_go_auth_engine.Prelude.{
  String, Bool, true, false, Option, none, some, List, [], ◌∷◌, ◌==◌, if◌then◌else◌,
}
use diene_go_auth_engine.Prelude.Int.{ℤ, pos, ◌+ℤ◌, ◌*ℤ◌}
use diene_go_auth_engine.Value.{
  Value, null, text, flag, float64, int64, int, strings, list, Values, no_values, member, Assoc,
  lookup,
}
use diene_go_auth_engine.Time.{Instant}

abbrev pub claim_subject : String
claim_subject = "sub"

abbrev pub claim_issuer : String
claim_issuer = "iss"

abbrev pub claim_audience : String
claim_audience = "aud"

abbrev pub claim_expiry : String
claim_expiry = "exp"

abbrev pub claim_username : String
claim_username = "username"

abbrev pub claim_email : String
claim_email = "email"

abbrev pub claim_email_verified : String
claim_email_verified = "email_verified"

abbrev pub claim_roles : String
claim_roles = "roles"

abbrev pub claim_scope : String
claim_scope = "scope"

abbrev pub claim_home_landscape : String
claim_home_landscape = "home_landscape"

-- A nil claim set and an empty one read alike, and both are [].
abbrev pub Claims : Type 0
Claims = Assoc Value

-- c[name], nil where the key is absent
unfoldable pub claim : Claims → String → Value
claim c name = elim (lookup name c) [ none ↦ null | some v ↦ v ]

-- The accessors by the dynamic type of the value, each with its `found` result as an Option.
abbrev pub as_text : Value → Option String
as_text (text s) = some s
as_text _ = none

abbrev pub as_flag : Value → Option Bool
as_flag (flag b) = some b
as_flag (text s) = if s == "true" then some true else if s == "false" then some false else none
as_flag _ = none

-- The string members of a mixed list.
abbrev pub text_members : Values → List String
text_members no_values = []
text_members (member (text s) vs) = s ∷ text_members vs
text_members (member _ vs) = text_members vs

abbrev pub as_list : Value → Option (List String)
as_list (strings ss) = some ss
as_list (text s) = some (s ∷ [])
as_list (list vs) = some (text_members vs)
as_list _ = none

-- time.Unix(s, 0) in nanoseconds since year 1
unfoldable pub unix : ℤ → Instant
unix s = (s +ℤ pos 62135596800) *ℤ pos 1000000000

abbrev pub as_instant : Value → Option Instant
as_instant (float64 s) = some (unix s)
as_instant (int64 s) = some (unix s)
as_instant (int s) = some (unix s)
as_instant _ = none

-- Claims.Text
unfoldable pub claims_text : Claims → String → Option String
claims_text c name = as_text (claim c name)

-- Claims.Flag
unfoldable pub claims_flag : Claims → String → Option Bool
claims_flag c name = as_flag (claim c name)

-- Claims.List
unfoldable pub claims_list : Claims → String → Option (List String)
claims_list c name = as_list (claim c name)

-- Claims.Space
unfoldable pub claims_space : Claims → String → Option (List String)
claims_space c name = elim (claims_text c name) [ none ↦ none | some s ↦ some (fields s) ]

-- Claims.Instant
unfoldable pub claims_instant : Claims → String → Option Instant
claims_instant c name = as_instant (claim c name)

-- Claims.Clone: a shallow copy, entry by entry
unfoldable pub clone : Claims → Claims
clone [] = []
clone ((k, v) ∷ c) = (k, v) ∷ clone c
