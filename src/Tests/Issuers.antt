-- ===== src/Tests/Issuers.antt =====
-- The fake identity provider: tokens minted and validated, with a JWT library that knows two tokens.
use diene_go_auth_engine.Prelude.{
  String, [], ◌∷◌, Bool, true, false, ◌==◌, ◌&&◌, nat_eq, if◌then◌else◌, ◌≡◌, ◌≢◌, ◌⊎◌, inl, inr,
  refl, arith, eq_iff, Bool-cases, false≢true, sym, ◌∙◌,
}
use diene_go_auth_engine.Prelude.Int.{pos, ◌*ℤ◌, ◌+ℤ◌, ◌-ℤ◌, ◌<ℤ◌}
use diene_go_auth_engine.Value.{Value, text, flag, int64, float64, lookup, insert, Assoc}
use diene_go_auth_engine.Claims.{Claims, claim, unix}
use diene_go_auth_engine.Problems.{ok, err, plain}
use diene_go_auth_engine.Principal.{Principal}
use diene_go_auth_engine.Validator.{
  JwtParser, Validator, accepted, validate, is_zero_mapper, new_validator, or_default_algorithms,
}
use diene_go_auth_engine.Validator.Extraction.{OnboardingIdentity, extract_onboarding}
use diene_go_auth_engine.Idp.{
  FakeIdp, IdpLibrary, idp_validator, mint_access_token, mint_id_token, mint_token, minted_claims,
}
use diene_go_auth_engine.Idp.Requests.{
  TokenRequest, base_claims, default_subject, named_claims, expiry_of, unix_seconds, copy_claims,
  put_if, put_registered,
}
use diene_go_auth_engine.Idp.Accepted.{IsJwt, wired}
use diene_go_auth_engine.Idp.Roundtrip.{Describes, Rereads}
use diene_go_auth_engine.Idp.Onboards.{
  IsHonest, Minted, access_token_round_trip, fake_tokens_onboard,
}
use diene_go_auth_engine.Idp.Support.{or_default}
use diene_go_auth_engine.Fakes.{fixed_now}
use diene_go_auth_engine.Tests.Fixtures.{problems}
use diene_go_auth_engine.Time.{add, is_zero}
use diene_go_auth_engine.Token.{default_clock_skew}

abbrev slugify : String → String
slugify name = name

abbrev request : TokenRequest
request = record {
  subject = "";
  username = "al";
  email = "al@idp";
  email_unverified = false;
  roles = [];
  scopes = [];
  home_landscape = "";
  registered = [];
  claims = [];
  issuer = "";
  audience = "";
  key_id = "";
  expires_at = pos 0;
  omit_expiry = false;
  omit_key_id = false;
}

-- The claims that the fake mints of the request, for an audience
abbrev claims_for : String → Claims
claims_for audience =
    named_claims request fixed_now (base_claims "https://idp" request audience fixed_now)

-- Whether two values, or two sets of claims, are alike; only texts, flags and whole numbers are.
abbrev same_value : Value → Value → Bool
same_value (text s) (text t) = s == t
same_value (flag true) (flag true) = true
same_value (int64 (pos n)) (int64 (pos m)) = nat_eq n m
same_value _ _ = false

abbrev same : Claims → Claims → Bool
same [] [] = true
same ((k, v) ∷ c) ((l, u) ∷ d) = k == l && same_value v u && same c d
same _ _ = false

same_value_sound : (v u : Value) → same_value v u ≡ true → v ≡ u
same_value_sound (text s) (text t) h = ground (arith, eq_iff s t)
same_value_sound (flag true) (flag true) h = refl
same_value_sound (int64 (pos n)) (int64 (pos m)) h = ground arith
same_value_sound _ _ h = absurd (false≢true h)

same_sound : (c d : Claims) → same c d ≡ true → c ≡ d
same_sound [] [] h = refl
same_sound ((k, v) ∷ c) ((l, u) ∷ d) h =
    ground (arith, eq_iff k l, same_value_sound v u, same_sound c d)
same_sound [] (x ∷ d) h = ground arith
same_sound (x ∷ c) [] h = ground arith

abbrev read_value : Value → Value
read_value (int64 n) = float64 n
read_value v = v

abbrev reread : Claims → Claims
reread [] = []
reread ((k, v) ∷ c) = (k, read_value v) ∷ reread c

claim-reread : (c : Claims) (n : String) → claim (reread c) n ≡ read_value (claim c n)
unfolding claim lookup
claim-reread [] n = refl
claim-reread ((k, v) ∷ c) n = elim (Bool-cases (k == n)) [
  | inl e ↦ ground (arith, claim-reread c n)
  | inr e ↦ ground (arith, claim-reread c n)
]

rereads : Rereads reread
rereads = record {
  reread-text = λ c n s h. ground (arith, claim-reread c n);
  reread-flag = λ c n b h. ground (arith, claim-reread c n);
  reread-list = λ c n ss h. ground (arith, claim-reread c n);
  reread-int64 = λ c n s h l. ground (arith, claim-reread c n);
  reread-null = λ c n h. ground (arith, claim-reread c n);
}

-- Signing knows the claims of an access token and of an ID token.
abbrev library : IdpLibrary (Unit {0}) String String
library = record {
  generate_key = λ bits w. (ok "key", w);
  public_key = λ key. key;
  new_system = λ instant w.
      (record { clock = record { now_utc = λ w'. (ok instant, w') }; set_now = λ at w'. w' }, w);
  new_header = [];
  sign = λ key header c.
      if same c (claims_for "api")
      then ok "access"
      else if same c (claims_for "fake-idp-client")
      then ok "id"
      else err (plain "unknown claims");
}

abbrev jwt : JwtParser (Unit {0}) String
jwt o t k w =
    (accepted (reread (claims_for (if t == "access" then "api" else "fake-idp-client"))), w)

signed :
    (key : String) (header : Assoc Value) (c : Claims) (token : String)
    → library.sign key header c ≡ ok token
    → (token ≡ "access") × (c ≡ claims_for "api")
      ⊎ (token ≡ "id") × (c ≡ claims_for "fake-idp-client")
signed key header c token h = elim (Bool-cases (same c (claims_for "api"))) [
  | inl e ↦ inl (ground arith, same_sound c (claims_for "api") e)
  | inr e ↦ elim (Bool-cases (same c (claims_for "fake-idp-client"))) [
    | inl e' ↦ inr (ground arith, same_sound c (claims_for "fake-idp-client") e')
    | inr e' ↦ absurd (ground arith)
  ]
]

is_jwt : IsJwt library jwt reread
is_jwt = record {
  signed-nonblank = λ key header c token h. elim (signed key header c token h) [
    | inl (t, e) ↦ (λ blank. false≢true ((eq_iff "access" "").1 (sym t ∙ blank)))
    | inr (t, e) ↦ (λ blank. false≢true ((eq_iff "id" "").1 (sym t ∙ blank)))
  ];
  verifies = λ key header c token o k w s h m found i e p l live a n.
      elim (signed key header c token h) [
        | inl (t, is) ↦ rw t (rw is refl)
        | inr (t, is) ↦ rw t (rw is refl)
      ];
}

abbrev idp : FakeIdp (Unit {0}) String
idp = record {
  issuer = "https://idp";
  audience = "api";
  key_id = "k1";
  key = "key";
  system = record { clock = record { now_utc = λ w. (ok fixed_now, w) }; set_now = λ at w. w };
  problems = problems;
}

abbrev v : Validator (Unit {0}) String
v = wired library idp

wires : idp_validator library idp ≡ ok v
unfolding idp_validator new_validator is_zero_mapper or_default_algorithms is_zero
wires = refl

key_id_named : idp.key_id ≢ ""
key_id_named h = false≢true ((eq_iff "k1" "").1 h)

honest : IsHonest slugify request
honest = (
  refl,
  refl,
  refl,
  refl,
  refl,
  refl,
  (tt, (tt, (tt, (tt, (tt, (tt, (tt, (tt, (tt, (tt, (tt, tt))))))))))),
  tt,
)

access-Minted :
    Minted idp request (mint_access_token library slugify idp request) tt "access" 1784981400
unfolding mint_access_token mint_token minted_claims copy_claims put_registered named_claims
    base_claims put_if insert unix_seconds expiry_of or_default add unix ◌+ℤ◌ ◌*ℤ◌ ◌-ℤ◌ is_zero
access-Minted = (fixed_now, refl, refl, refl, omega arith, omega arith)

id-Minted : Minted idp request (mint_id_token library slugify idp request) tt "id" 1784981400
unfolding mint_id_token mint_token minted_claims copy_claims put_registered named_claims base_claims
    put_if insert unix_seconds expiry_of or_default add unix ◌+ℤ◌ ◌*ℤ◌ ◌-ℤ◌ is_zero
id-Minted = (fixed_now, refl, refl, refl, omega arith, omega arith)

live : fixed_now <ℤ unix (pos 1784981400) +ℤ default_clock_skew
unfolding unix ◌+ℤ◌ ◌*ℤ◌
live = omega arith

access_token_round_trip_example :
    (p : Principal) × (validate jwt v "access" tt ≡ (ok p, tt))
    × Describes slugify "https://idp" "api" 1784981400 request p
access_token_round_trip_example =
    access_token_round_trip library jwt reread rereads is_jwt slugify idp v wires key_id_named
      request honest tt tt "access" 1784981400 fixed_now access-Minted refl live

named_user : request.username ≢ ""
named_user h = false≢true ((eq_iff "al" "").1 h)

named_email : request.email ≢ ""
named_email h = false≢true ((eq_iff "al@idp" "").1 h)

fake_tokens_onboard_example :
    (i : OnboardingIdentity) × ((extract_onboarding jwt v
        (record { access = "access"; id = "id"; authorization = "user-1" })
        tt).0
      ≡ ok i)
    × (i.subject ≡ or_default "" default_subject)
    × (i.username ≡ "al")
    × (i.email ≡ "al@idp")
unfolding or_default
fake_tokens_onboard_example =
    fake_tokens_onboard library jwt reread rereads is_jwt slugify idp v wires key_id_named request
      honest tt tt tt "access" "id" "user-1" 1784981400 1784981400 fixed_now fixed_now access-Minted
      id-Minted refl live refl live named_user named_email refl (inr refl)
