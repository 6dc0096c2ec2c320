-- ===== src/Types/Expiration.antt =====
-- `ExpiresIn` and `ExpiresAt` of types.go. A duration is a whole number of nanoseconds, and the
-- clock's reading is nanoseconds since 1970.
pub mod Bounds
use go_memcache.Base.{ℕ, suc, ◌+◌, ◌-◌, ◌*◌, ◌/◌, ltb, ◌==◌, if◌then◌else◌}
use go_memcache.Base.Int.{ℤ, pos, negsuc}

abbrev pub second : ℕ
second = 1000000000

abbrev pub max_relative_expiration : ℕ
max_relative_expiration = 30 * 24 * 3600 * second

-- `ExpiresAt(t)`: `t.Unix()`.
unfoldable pub expires_at : ℕ → ℤ
expires_at t = pos (t / second)

-- `d / time.Second` for a negative `d`, of magnitude `m`, truncates towards zero.
negative_seconds : ℕ → ℤ
negative_seconds m = if m / second == 0 then negsuc 0 else negsuc (m / second - 1)

-- `ExpiresIn(d)`, at a moment when `time.Now()` is `now`.
unfoldable pub expires_in : ℕ → ℤ → ℤ
unfolding negative_seconds expires_at
expires_in now (negsuc n) = negative_seconds (suc n)
expires_in now (pos d) =
    if d == 0
    then pos (d / second)
    else if ltb max_relative_expiration d
    then expires_at (now + d)
    else pos ((d + second - 1) / second)
