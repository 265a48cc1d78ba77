-- ===== src/Config/Lifetimes.antt =====
-- The durations that lib/authengine/config.go makes of configured numbers of seconds.
use diene_go_auth_engine.Prelude.{ℕ, ◌<◌, ◌≤◌, ◌*◌, ◌≡◌, ◌⊎◌, arith, inl, inr}
use diene_go_auth_engine.Config.{IdpConfig, MintingConfig, config_leeway, config_skew}
use diene_go_auth_engine.Token.{default_clock_skew, default_refresh_skew}
use diene_go_auth_engine.Time.{of_seconds, wrap64}
use diene_go_auth_engine.Prelude.Int.{pos, ◌*ℤ◌, ◌<ℤ◌}

pub of_seconds-exact : (n : ℕ) → n ≤ 9223372036 → of_seconds (pos n) ≡ pos (n * 1000000000)
unfolding of_seconds wrap64 ◌*ℤ◌
of_seconds-exact n small = ground arith

of_seconds-wraps : (n : ℕ) → 9223372036 < n → n ≤ 18446744073 → of_seconds (pos n) <ℤ pos 0
unfolding of_seconds wrap64 ◌*ℤ◌
of_seconds-wraps n big less = ground arith

sizes : (n : ℕ) → (n ≡ 0) ⊎ (0 < n) × (n ≤ 9223372036) ⊎ (9223372036 < n)
sizes n = omega arith

-- The leeway for a configured number of seconds that is not negative, up to 18446744073: the default
-- at zero, the exact number of nanoseconds as long as an int64 holds it, and beyond that the product
-- has wrapped around to a negative duration.
pub config_leeway_lem :
    (c : IdpConfig) (n : ℕ)
    → c.clock_skew_seconds ≡ pos n
    → n ≤ 18446744073
    → (n ≡ 0) × (config_leeway c ≡ default_clock_skew)
      ⊎ (0 < n) × (n ≤ 9223372036) × (config_leeway c ≡ pos (n * 1000000000))
      ⊎ (9223372036 < n) × (config_leeway c <ℤ pos 0)
unfolding config_leeway
config_leeway_lem c n e h = elim (sizes n) [
  | inl z ↦ inl (z, ground arith)
  | inr (inl (lo, hi)) ↦ inr (inl (lo, hi, ground (arith, of_seconds-exact n hi)))
  | inr (inr big) ↦ inr (inr (big, ground (arith, of_seconds-wraps n big h)))
]

-- The refresh skew for a configured number of seconds that is not negative, up to 18446744073: the
-- default at zero, the exact number of nanoseconds as long as an int64 holds it, and beyond that a
-- negative duration.
pub config_skew_lem :
    (c : MintingConfig) (n : ℕ)
    → c.refresh_skew_seconds ≡ pos n
    → n ≤ 18446744073
    → (n ≡ 0) × (config_skew c ≡ default_refresh_skew)
      ⊎ (0 < n) × (n ≤ 9223372036) × (config_skew c ≡ pos (n * 1000000000))
      ⊎ (9223372036 < n) × (config_skew c <ℤ pos 0)
unfolding config_skew
config_skew_lem c n e h = elim (sizes n) [
  | inl z ↦ inl (z, ground arith)
  | inr (inl (lo, hi)) ↦ inr (inl (lo, hi, ground (arith, of_seconds-exact n hi)))
  | inr (inr big) ↦ inr (inr (big, ground (arith, of_seconds-wraps n big h)))
]
