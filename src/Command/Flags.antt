-- ===== src/Command/Flags.antt =====
-- `appendOpaque`, `expirationFlag` and `commandHasSideEffect` of client.go.
use go_memcache.Base.{
  ℕ, Bool, true, false, not, ◌||◌, List, [], ◌∷◌, ◌++◌, Option, none, some, Bytes, codes, same, any,
  ◌==◌, if◌then◌else◌,
}
use go_memcache.Base.Int.{is_positive}
use go_memcache.Errors.{Result, ok, ◌>>◌}
use go_memcache.Std.Decimal.{format_uint, format_int}
use go_memcache.Types.{Seconds}
use go_memcache.Wire.{MetaCommand, validate_opaque}

-- `if test { flags = append(flags, flag) }`.
abbrev pub when : Bool → Bytes → List Bytes
when true flag = flag ∷ []
when false flag = []

-- `if p != nil { flags = append(flags, flag(*p)) }`.
abbrev pub given {ℓ} : {A : Type ℓ} → (A → Bytes) → Option A → List Bytes
given flag none = []
given flag (some a) = flag a ∷ []

-- A letter and a number.
unfoldable pub uint_flag : ℕ → ℕ → Bytes
uint_flag letter n = letter ∷ format_uint n

unfoldable pub expiration_flag : ℕ → Seconds → Bytes
expiration_flag letter e = letter ∷ format_int e

-- `ttl != nil && *ttl <= 0`.
unfoldable pub not_positive : Option Seconds → Bool
not_positive none = false
not_positive (some e) = not (is_positive e)

-- The opaque flag behind the others, if there is a token.
unfoldable pub opaque_flags : Bytes → List Bytes
opaque_flags [] = []
opaque_flags (c ∷ token) = (b'O' ∷ c ∷ token) ∷ []

unfoldable pub append_opaque : List Bytes → Bytes → Result (List Bytes)
append_opaque flags opaque = do validate_opaque opaque; ok (flags ++ opaque_flags opaque)

-- The flags of a get that change the item.
unfoldable pub is_effect_flag : Bytes → Bool
is_effect_flag [] = false
is_effect_flag (c ∷ flag) = c == b'T' || c == b'N' || c == b'R' || c == b'E'

unfoldable pub command_has_side_effect : MetaCommand → Bool
unfolding is_effect_flag
command_has_side_effect m =
    if not (same m.command (codes "mg"))
    then not (same m.command (codes "me"))
    else any is_effect_flag m.flags
