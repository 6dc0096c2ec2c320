-- ===== src/Wire/Char.antt =====
-- The byte test that `encodeKey`, `validateOpaque` and `marshal` of wire.go share.
use go_memcache.Base.{ℕ, Bool, ◌||◌, Bytes, any, leb, ◌==◌}

-- A byte that cannot stand in a key, a flag or an opaque token.
unfoldable pub is_control : ℕ → Bool
is_control c = leb c 0x20 || c == 0x7f

abbrev pub has_control : Bytes → Bool
has_control = any is_control
