-- ===== src/Token/Expiry.antt =====
-- Expiry and remaining lifetime of an access token (lib/authengine/token.go).
use diene_go_auth_engine.Token.{AccessToken, expired, ttl}
use diene_go_auth_engine.Time.{Duration, Instant, add, before, max_duration, sub}
use diene_go_auth_engine.Prelude.{arith, false, true, ◌↔◌, ◌≡◌}
use diene_go_auth_engine.Prelude.Int.{pos, ◌+ℤ◌, ◌<ℤ◌, ◌≤ℤ◌, +ℤ_parts, -ℤ_parts}

-- A token is spent exactly from `skew` before its expiry on.
pub expired_iff :
    (t : AccessToken) (now : Instant) (skew : Duration)
    → (expired t now skew ≡ true) ↔ (t.expires_at ≤ℤ now +ℤ skew)
unfolding expired before add
expired_iff t now skew = ground arith

-- For a skew that is not negative and below the longest duration, a token that is not spent within
-- the skew has a time to live above the skew, and at most the longest duration, so that it is never
-- cached for no time.
pub ttl-live :
    (t : AccessToken) (now : Instant) (skew : Duration)
    → skew <ℤ max_duration
    → pos 0 ≤ℤ skew
    → expired t now skew ≡ false
    → (skew <ℤ ttl t now) × (ttl t now ≤ℤ max_duration)
unfolding expired ttl before add sub
ttl-live t now skew small nonneg live = ground (arith, +ℤ_parts now skew, -ℤ_parts t.expires_at now)
