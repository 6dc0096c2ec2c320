-- ===== src/Types/Expiration/Bounds.antt =====
-- The values of `ExpiresIn` of types.go.
use go_memcache.Base.{ℕ, ◌+◌, ◌-◌, ◌/◌, ◌*◌, ◌≤◌, ◌<◌, ◌≡◌, arith}
use go_memcache.Base.Int.{ℤ, pos, negsuc}
use go_memcache.Types.Expiration.{second, max_relative_expiration, expires_at, expires_in}

-- The value of a relative expiration: the least number of seconds that covers the duration.
pub record Covers (d : ℕ) (s : ℕ) : Type 0 where
  pub enough : d ≤ s * second
  pub least : s * second < d + second
  pub relative : s ≤ 30 * 24 * 3600

-- A positive duration of at most thirty days becomes the least number of whole seconds that
-- covers it, and that number is at least 1 and at most the seconds of thirty days.
pub expires_in-Covers :
    (now d : ℕ)
    → 0 < d
    → d ≤ max_relative_expiration
    → (s : ℕ) × (expires_in now (pos d) ≡ pos s) × (0 < s) × Covers d s
unfolding expires_in
expires_in-Covers now d h k = ((d + second - 1) / second, ground arith, omega arith, omega arith)

-- A duration of more than thirty days becomes the Unix time in whole seconds, rounded down, at which
-- it ends, and that is at least the seconds of thirty days.
pub expires_in_absolute :
    (now d : ℕ)
    → max_relative_expiration < d
    → (s : ℕ) × (expires_in now (pos d) ≡ pos s)
      × (s * second ≤ now + d)
      × (now + d < s * second + second)
      × (30 * 24 * 3600 ≤ s)
unfolding expires_in expires_at
expires_in_absolute now d h =
    ((now + d) / second, ground arith, omega arith, omega arith, omega arith)

-- Only the duration zero becomes the expiration 0, with which an item never expires.
expires_in-eq-zero : (now : ℕ) (d : ℤ) → expires_in now d ≡ pos 0 → d ≡ pos 0
unfolding expires_in
expires_in-eq-zero now (pos d) h = ground arith
expires_in-eq-zero now (negsuc d) h = ground arith
