-- ===== src/Principal/Mapping.antt =====
-- What ClaimMapper.Map and Principal.Registered (lib/authengine/principal.go) read from the claims.
use diene_go_auth_engine.Prelude.{
  String, some, List, true, ◌≡◌, ◌⊎◌, ◌↔◌, arith, eq_iff, inl, inr, All,
}
use diene_go_auth_engine.Claims.{
  Claims, as_flag, claim, claim_scope, claims_flag, claims_space, claims_text,
}
use diene_go_auth_engine.Text.Words.{IsWord, fields-join_spaces}
use diene_go_auth_engine.Principal.{
  Principal, map_claims, new_claim_mapper, or_default, registered, registration_claim,
}
use diene_go_auth_engine.Value.{Value, flag, float64, int, int64, list, null, object, strings, text}
use diene_go_auth_engine.Text.{join_spaces}

as_flag_iff : (v : Value) → (as_flag v ≡ some true) ↔ ((v ≡ flag true) ⊎ (v ≡ text "true"))
as_flag_iff null = ((λ h. cc), (λ h. elim h [ inl e ↦ cc | inr e ↦ cc ]))
as_flag_iff (text s) = ground (arith, eq_iff s "true", eq_iff s "false")
as_flag_iff (flag b) = ground arith
as_flag_iff (float64 n) = ground arith
as_flag_iff (int64 n) = ground arith
as_flag_iff (int n) = ground arith
as_flag_iff (strings ss) = ground arith
as_flag_iff (list vs) = ground arith
as_flag_iff (object fs) = ground arith

-- A principal is registered with a backend exactly if the claim named after the backend is the flag
-- true or the text "true"; an absent claim and one of any other kind deny it.
pub registered_iff :
    (slugify : String → String) (p : Principal) (backend : String)
    → (registered slugify p backend ≡ true) ↔ (
        (claim p.claims (registration_claim slugify backend) ≡ flag true)
        ⊎ (claim p.claims (registration_claim slugify backend) ≡ text "true"))
unfolding registered claims_flag
registered_iff slugify p backend =
    ground (arith, as_flag_iff (claim p.claims (registration_claim slugify backend)))

-- With the default mapper, where the scope claim is a list of words joined by spaces, none of them
-- empty or with white space in it, the principal's scopes are exactly these words in their order.
pub scopes_survive :
    (claims : Claims) (ws : List String)
    → claim claims claim_scope ≡ text (join_spaces ws)
    → All IsWord ws
    → (map_claims new_claim_mapper claims).scopes ≡ ws
unfolding map_claims or_default claims_space claims_text
scopes_survive claims ws h words = ground (arith, h, fields-join_spaces ws words)
