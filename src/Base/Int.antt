-- ===== src/Base/Int.antt =====
-- Signed integers over the native numbers, under the library's names.
use go_memcache.Base.{ℕ, Bool, ltb}

-- `negsuc n` is -(n + 1).
pub data ℤ : Type 0 where
  pos : ℕ → ℤ
  negsuc : ℕ → ℤ

-- `i > 0`.
abbrev pub is_positive : ℤ → Bool
is_positive (pos n) = ltb 0 n
is_positive (negsuc n) = Bool.false

-- `i < 0`.
abbrev pub is_negative : ℤ → Bool
is_negative (pos n) = Bool.false
is_negative (negsuc n) = Bool.true

-- `i != 0`.
abbrev pub is_nonzero : ℤ → Bool
is_nonzero (pos n) = ltb 0 n
is_nonzero (negsuc n) = Bool.true
