-- ===== src/Time.antt =====
-- time.Time and time.Duration of the Go standard library, as far as the engine uses them.
-- An instant is the number of nanoseconds since the zero time (year 1, UTC), a duration an int64
-- number of nanoseconds.
use diene_go_auth_engine.Prelude.{
  ◌-◌, ◌%◌, ◌^◌, ◌≡◌, ◌↔◌, Bool, true, false, arith, ltb, if◌then◌else◌, nat_eq,
}
use diene_go_auth_engine.Prelude.Int.{
  ℤ, pos, negsuc, ◌+ℤ◌, ◌-ℤ◌, ◌*ℤ◌, ◌≤ℤ◌, ◌<ℤ◌, ltb_ℤ, ltb_ℤ_iff,
}

abbrev pub Instant : Type 0
Instant = ℤ

abbrev pub Duration : Type 0
Duration = ℤ

abbrev pub zero_time : Instant
zero_time = pos 0

abbrev pub max_duration : Duration
max_duration = pos 9223372036854775807

abbrev pub min_duration : Duration
min_duration = negsuc 9223372036854775807

-- t.Before(u)
unfoldable pub before : Instant → Instant → Bool
before t u = ltb_ℤ t u

pub before_iff : (t u : Instant) → (before t u ≡ true) ↔ (t <ℤ u)
unfolding before
before_iff t u = ltb_ℤ_iff t u

pub not-before_iff : (t u : Instant) → (before t u ≡ false) ↔ (u ≤ℤ t)
unfolding before
not-before_iff t u = ground arith

-- t.Add(d)
unfoldable pub add : Instant → Duration → Instant
add t d = t +ℤ d

-- t.Sub(u) saturates at the bounds of a duration.
unfoldable pub sub : Instant → Instant → Duration
sub t u =
    let d = t -ℤ u in
    if ltb_ℤ max_duration d then max_duration else if ltb_ℤ d min_duration then min_duration else d

-- t.IsZero()
unfoldable pub is_zero : Instant → Bool
is_zero (pos n) = nat_eq n 0
is_zero (negsuc n) = false

-- The int64 that a product wraps around to.
unfoldable pub wrap64 : ℤ → ℤ
wrap64 (pos n) = let r = n % 2 ^ 64 in if ltb r (2 ^ 63) then pos r else negsuc (2 ^ 64 - 1 - r)
wrap64 (negsuc n) =
    let r = 2 ^ 64 - 1 - n % 2 ^ 64 in if ltb r (2 ^ 63) then pos r else negsuc (2 ^ 64 - 1 - r)

-- time.Duration(s) * time.Second
unfoldable pub of_seconds : ℤ → Duration
unfolding wrap64 ◌*ℤ◌
of_seconds s = wrap64 (s *ℤ pos 1000000000)
